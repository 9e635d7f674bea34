-- ===== src/Kmalloc/Init.antt =====
-- `kmalloc_init`: the frames of the loop become the first free run.
use nadir_kernel.Base.{
  ℕ, ◌+◌, ◌/◌, ◌%◌, ◌≤◌, ◌≡◌, refl, Bool, true, false, not, ◌&&◌, ◌||◌, List, [], ◌∷◌, arith, ltb,
  ◌==◌, if◌then◌else◌, inl, inr, beq_of_ne, beq_of_eq, sym,
}
use mathlib.Core.Path.{subst}
use nadir_kernel.Pmm.{Pmm, test_bit}
use nadir_kernel.Pmm.Count.{IsCounted}
use nadir_kernel.Kmalloc.{Heap, frames_at, init_loop, first_heap, kmalloc_init}
use nadir_kernel.Kmalloc.Runs.{Run, run, IsRun, hits, held, total, hits-le}
use nadir_kernel.Kmalloc.Chain.{frames_at_lem}
use nadir_kernel.Kmalloc.Alloc.{IsHeap}
use nadir_kernel.Kmalloc.Pull.{inside, Owns, Pulled, Result, init_loop_lem}

-- The run that the heap starts with.
unfoldable pub first_run : ℕ → ℕ → List Run
first_run addr i = if addr == 0 then [] else run addr i ∷ []

-- What `kmalloc_init` leaves of the frame allocator `p` and a heap.
abbrev pub Starts : Pmm → Heap → Pmm → Type 0
Starts p h' q =
    let free = first_run h'.g_free_list h'.g_free_frames in
    IsHeap h' free [] h'.g_free_frames
    × (h'.g_free_frames ≤ 64)
    × ((x : ℕ)
        → (ltb 0 (held x free)
            && (test_bit p.bitmap (x / 4096) || not (test_bit q.bitmap (x / 4096))))
          ≡ false)
    × IsCounted q
    × (q.g_free + h'.g_free_frames ≤ p.g_free)
    × (p.g_free ≤ q.g_free + h'.g_free_frames + 1)

-- The bytes of the run lie in its frames.
bytes_inside :
    (x addr i : ℕ) (b c : Bool)
    → addr % 4096 ≡ 0
    → (inside (addr / 4096) i (x / 4096) && b) ≡ false
    → (inside (addr / 4096) i (x / 4096) && not c) ≡ false
    → (ltb 0 (hits x (run addr i) + 0) && (b || not c)) ≡ false
unfolding hits
bytes_inside x addr i b c al h k = ground arith

finish_none :
    (p q : Pmm) (h : Heap) (i spare : ℕ)
    → Pulled p 0 i spare q
    → spare ≤ 1
    → i ≡ 0
    → Starts p (first_heap 0 i h) q
unfolding first_heap first_run held total
finish_none p q h i spare s one z = (
  record {
    chain = refl;
    headers = tt;
    free_runs = tt;
    used_runs = tt;
    apart = λ x. omega arith;
    free_frames = refl;
    used_frames = refl;
    all_frames = refl;
    small = omega arith;
  },
  omega arith,
  λ x. refl,
  s.counted,
  omega (arith, s.frames),
  omega (arith, s.frames),
)

finish_some :
    (p q : Pmm) (h : Heap) (addr i spare : ℕ)
    → Pulled p addr i spare q
    → spare ≤ 1
    → i ≤ 64
    → Owns p q addr i
    → Starts p (first_heap addr i h) q
unfolding first_heap first_run
finish_some p q h addr i spare s one most o =
    let live = o.live in
    let v : IsRun (run addr i) = record {
      aligned = o.aligned;
      start = live;
      frames = o.some';
      inside = omega (arith, o.aligned, o.fits);
    } in
    let p8 = frames_at_lem (run addr i) v in
    let some_addr : (addr == 0) ≡ false = beq_of_ne addr 0 (omega arith) in
    rw some_addr (
      rw some_addr (
        record {
          chain = (
            refl,
            rw (beq_of_eq (frames_at addr) (frames_at addr) refl),
            rw (beq_of_ne (frames_at addr) addr (omega (arith, p8)), beq_of_eq addr addr refl),
          );
          headers = tt;
          free_runs = (v, tt);
          used_runs = tt;
          apart = λ x. unfold held in ground (arith, hits-le x (run addr i));
          free_frames = unfold total in omega arith;
          used_frames = unfold total in refl;
          all_frames = unfold total in omega arith;
          small = omega arith;
        },
        most,
        λ x.
            unfold held in
            bytes_inside x addr i (test_bit p.bitmap (x / 4096)) (test_bit q.bitmap (x / 4096))
              o.aligned (o.were_free (x / 4096)) (o.are_reserved (x / 4096)),
        s.counted,
        omega (arith, s.frames),
        omega (arith, s.frames),
      ))

finish :
    (p q : Pmm) (h : Heap) (addr i : ℕ)
    → Result p (addr, i, q) 64
    → Starts p (first_heap addr i h) q
finish p q h addr i r = elim r.pulled.owns [
  | inl (a, z) ↦
      subst (λ (b : ℕ). Starts p (first_heap b i h) q) (sym a)
        (finish_none p q h i r.spare (subst (λ (b : ℕ). Pulled p b i r.spare q) a r.pulled)
          r.spare_one z)
  | inr o ↦ finish_some p q h addr i r.spare r.pulled r.spare_one r.most o
]

-- From a frame allocator that is in step and reserves frame 0, `kmalloc_init` makes a well-formed heap
-- of at most 64 frames, all in one free run. Its bytes lie in frames that were free and are now
-- reserved; the frame allocator stays in step and loses the frames of the heap and at most one more.
pub kmalloc_init-Starts :
    (p : Pmm) (h : Heap)
    → IsCounted p
    → test_bit p.bitmap 0 ≡ true
    → let (h', q) = kmalloc_init p h in Starts p h' q
unfolding kmalloc_init
kmalloc_init-Starts p h c zero' =
    let (addr, i, q) = init_loop 64 0 0 p in
    finish p q h addr i (
      init_loop_lem 64 0 0 p p (record {
        counted = c;
        zero_reserved = zero';
        grows = λ g. ground arith;
        frames = omega arith;
        owns = inl (refl, refl);
      }))
