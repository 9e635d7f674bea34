-- ===== src/Kmalloc/Free.antt =====
-- `kfree` on a well-formed heap, and on pointers that are no blocks.
use nadir_kernel.Base.{
  ℕ, ◌+◌, ◌<◌, ◌≡◌, ◌≢◌, refl, false, List, [], ◌∷◌, arith, ◌==◌, if◌then◌else◌, Bool-cases, inl,
  inr, add64, sub64, beq_of_ne, beq_of_eq, eq_of_beq, ap, ◌∙◌,
}
use nadir_kernel.Kmalloc.{Memory, Heap, frames_at, store, give_back, kfree, kmalloc_magic}
use nadir_kernel.Kmalloc.Runs.{Run, IsRun, AllRuns, hits, held, total, hits_start}
use nadir_kernel.Kmalloc.Chain.{Chain, Chain-Agree, Headers, Headers-Agree, frames_at_lem}
use nadir_kernel.Kmalloc.Alloc.{IsHeap}

-- `rest` is `rs` without one occurrence of `r`.
pub data Removes (r : Run) : List Run → List Run → Type 0 where
  first : (rs : List Run) → Removes r (r ∷ rs) rs
  later : {rs rest : List Run} (s : Run) → Removes r rs rest → Removes r (s ∷ rs) (s ∷ rest)

pub held-Removes :
    {r : Run} {rs rest : List Run} (x : ℕ) → Removes r rs rest → held x rs ≡ hits x r + held x rest
unfolding held
held-Removes x (first rs) = refl
held-Removes x (later s m) = omega (arith, held-Removes x m)

total-Removes :
    {r : Run} {rs rest : List Run} → Removes r rs rest → total rs ≡ r.frames + total rest
unfolding total
total-Removes (first rs) = refl
total-Removes (later s m) = omega (arith, total-Removes m)

pub AllRuns-Removes :
    {r : Run} {rs rest : List Run} → Removes r rs rest → AllRuns rs → IsRun r × AllRuns rest
AllRuns-Removes (first rs) v = v
AllRuns-Removes (later s m) v = let (a, b) = AllRuns-Removes m v.1 in (a, (v.0, b))

Headers-Removes :
    {r : Run} {rs rest : List Run} (mem : Memory)
    → Removes r rs rest
    → Headers mem rs
    → (mem r.start ≡ kmalloc_magic) × (mem (frames_at r.start) ≡ r.frames) × Headers mem rest
Headers-Removes mem (first rs) h = h
Headers-Removes mem (later s m) h =
    let (a, b, c) = Headers-Removes mem m h.2 in (a, b, (h.0, h.1, c))

give_back_memory :
    (hdr : ℕ) (h : Heap) (x : ℕ)
    → hdr ≢ frames_at hdr
    → (give_back hdr h).memory x ≡ (if hdr == x then h.g_free_list else h.memory x)
unfolding give_back store
give_back_memory hdr h x ne = elim (Bool-cases (frames_at hdr == x)) [
  | inl e ↦ rw (
    ← eq_of_beq (frames_at hdr) x e,
    beq_of_eq (frames_at hdr) (frames_at hdr) refl,
    beq_of_ne hdr (frames_at hdr) ne,
  )
  | inr other ↦ rw other (elim (Bool-cases (hdr == x)) [ inl e ↦ rw e | inr out ↦ rw out ])
]

give_back_counters :
    (hdr : ℕ) (h : Heap)
    → hdr ≢ frames_at hdr
    → ((give_back hdr h).g_free_frames ≡ add64 h.g_free_frames (h.memory (frames_at hdr)))
      × ((give_back hdr h).g_used_frames ≡ sub64 h.g_used_frames (h.memory (frames_at hdr)))
unfolding give_back store
give_back_counters hdr h ne =
    rw (beq_of_eq (frames_at hdr) (frames_at hdr) refl, beq_of_ne hdr (frames_at hdr) ne)
      (refl, refl)

pub kfree_bad :
    (ptr : ℕ) (h : Heap) → (h.memory (sub64 ptr 16) == kmalloc_magic) ≡ false → kfree ptr h ≡ h
unfolding kfree
kfree_bad ptr h bad = ground arith

-- Freeing a block of a well-formed heap puts its run in front of the free list and leaves the other
-- blocks and all memory outside the run as they were; the heap stays well formed.
pub kfree_lem :
    {r : Run} {h : Heap} {free used rest : List Run} {size : ℕ}
    → IsHeap h free used size
    → Removes r used rest
    → let h' = kfree (r.start + 16) h in
      IsHeap h' (r ∷ free) rest size × ((x : ℕ) → hits x r ≡ 0 → h'.memory x ≡ h.memory x)
kfree_lem {r} {h} {free} {used} {rest} {size} i m =
    let (v, vs) = AllRuns-Removes m i.used_runs in
    let (magic, frames, headers) = Headers-Removes h.memory m i.headers in
    let frames_eq = frames_at_lem r v in
    let hdr : sub64 (r.start + 16) 16 ≡ r.start = omega arith in
    let acts : kfree (r.start + 16) h ≡ give_back r.start h =
      unfold kfree in
      rw (
        hdr,
        beq_of_ne (r.start + 16) 0 (omega arith),
        magic,
        frames,
        beq_of_ne r.frames 0 (omega arith),
      ) in
    let ne : r.start ≢ frames_at r.start = omega (arith, frames_eq) in
    let (more, less) = give_back_counters r.start h ne in
    let other : (x : ℕ) → hits x r ≡ 0 → (give_back r.start h).memory x ≡ h.memory x = λ x miss.
      give_back_memory r.start h x ne
      ∙ rw (
          beq_of_ne r.start x
            (λ e. absurd (omega (arith, miss, ap (λ y. hits y r) e, hits_start r v)))) in
    let top : (give_back r.start h).g_free_list ≡ r.start = unfold give_back in refl in
    let word : (give_back r.start h).memory r.start ≡ h.g_free_list =
      give_back_memory r.start h r.start ne ∙ rw (beq_of_eq r.start r.start refl) in
    rw acts (
      record {
        chain = (
          top,
          rw top (
              give_back_memory r.start h (frames_at r.start) ne
              ∙ rw (beq_of_ne r.start (frames_at r.start) ne) frames),
          rw (top, word)
              (Chain-Agree free h.g_free_list {mem = h.memory} {mem' = (give_back r.start h).memory}
                i.free_runs (λ x inside. other x (omega (arith, i.apart x, held-Removes x m)))
                i.chain),
        );
        headers =
            Headers-Agree rest {mem = h.memory} vs
              (λ x inside. other x (omega (arith, i.apart x, held-Removes x m))) headers;
        free_runs = (v, i.free_runs);
        used_runs = vs;
        apart = λ x. unfold held in omega (arith, i.apart x, held-Removes x m);
        free_frames =
            unfold total in
            omega (arith, more, frames, i.free_frames, total-Removes m, i.all_frames, i.small);
        used_frames =
            omega (arith, less, frames, i.used_frames, total-Removes m, i.all_frames, i.small);
        all_frames = unfold total in omega (arith, total-Removes m, i.all_frames);
        small = i.small;
      },
      other,
    )

not_magic : (mem : Memory) (p : ℕ) (rs : List Run) → AllRuns rs → Chain mem p rs → p < 0x4000_0000
not_magic mem p [] v c = omega (arith, c)
not_magic mem p (r ∷ rs) v c = omega (arith, c.0, v.0.inside, v.0.frames)

-- A second `kfree` of the same block changes nothing: the link of the free list that lies over the
-- magic number by then is no magic number.
pub kfree-kfree :
    {r : Run} {h : Heap} {free used rest : List Run} {size : ℕ}
    → IsHeap h free used size
    → Removes r used rest
    → let h' = kfree (r.start + 16) h in kfree (r.start + 16) h' ≡ h'
kfree-kfree {r} {h} {free} {used} {rest} i m =
    let (v, vs) = AllRuns-Removes m i.used_runs in
    let after = (kfree_lem i m).0 in
    let hdr : sub64 (r.start + 16) 16 ≡ r.start = omega arith in
    let small : (kfree (r.start + 16) h).memory r.start < 0x4000_0000 =
      not_magic (kfree (r.start + 16) h).memory _ free i.free_runs
        (rw after.chain.0 at after.chain.2) in
    kfree_bad (r.start + 16) (kfree (r.start + 16) h)
      (rw hdr (beq_of_ne _ kmalloc_magic (omega arith)))
