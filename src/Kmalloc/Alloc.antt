-- ===== src/Kmalloc/Alloc.antt =====
-- `kmalloc` on a well-formed heap.
use nadir_kernel.Base.{
  ℕ, ◌+◌, ◌-◌, ◌*◌, ◌^◌, ◌≤◌, ◌<◌, ◌≡◌, refl, true, Option, none, some, List, ◌∷◌, arith, ◌==◌,
  if◌then◌else◌,
}
use nadir_kernel.Kmalloc.{Heap, frames_for, root, read_link, kmalloc}
use nadir_kernel.Kmalloc.Runs.{
  Run, run, AllRuns, hits, held, total, first_fit, first_fit_lem, AllSmall, Outcome,
  length-le-total,
}
use nadir_kernel.Kmalloc.Chain.{Chain, Headers, Headers-Agree}
use nadir_kernel.Kmalloc.Carve.{at_link}
use nadir_kernel.Kmalloc.Walk.{Walked, walk_lem}

-- The largest request whose rounding does not wrap.
abbrev pub max_size : ℕ
max_size = 2 ^ 64 - 4112

-- `frames_for` is the least number of frames that hold a header and the bytes asked for (one byte, if
-- none is asked for), unless the request is within 4111 bytes of 2 ^ 64.
pub frames_for_lem :
    (size : ℕ)
    → size ≤ max_size
    → let bytes = (if size == 0 then 1 else size) + 16 in
      (bytes ≤ frames_for size * 4096) × (frames_for size * 4096 < bytes + 4096)
unfolding frames_for
frames_for_lem size h = ground arith

-- The free list is the chain of the runs `free`, the runs `used` have their headers, no byte lies in
-- two runs, and the counters are right. `size` is the number of frames of the heap.
pub record IsHeap (h : Heap) (free used : List Run) (size : ℕ) : Type 0 where
  pub chain : Chain h.memory h.g_free_list free
  pub headers : Headers h.memory used
  pub free_runs : AllRuns free
  pub used_runs : AllRuns used
  pub apart : (x : ℕ) → held x free + held x used ≤ 1
  pub free_frames : h.g_free_frames ≡ total free
  pub used_frames : h.g_used_frames ≡ total used
  pub all_frames : total free + total used ≡ size
  pub small : size ≤ 262_144

-- What `kmalloc` returns, given the outcome of first fit: NULL and the heap as it was, or the address
-- behind the header of the run taken, on a heap where that run is used, the others are as they were,
-- and every byte lies in as many runs as before.
abbrev pub Allocates :
    ℕ → Heap → List Run → List Run → ℕ → Option (ℕ × Heap) → Option (ℕ × List Run) → Type 0
Allocates need h free used size result none = (result ≡ some (0, h)) × AllSmall need free
Allocates need h free used size result (some (a, free')) =
    (h' : Heap) × (result ≡ some (a + 16, h'))
    × IsHeap h' free' (run a need ∷ used) size
    × ((x : ℕ) → held x free' + hits x (run a need) ≡ held x free)
    × ((x : ℕ) → held x free ≡ 0 → h'.memory x ≡ h.memory x)

allocates :
    (need : ℕ) (h : Heap) (free used : List Run) (size : ℕ) (result : Option (ℕ × Heap))
    (o : Option (ℕ × List Run))
    → IsHeap h free used size
    → Outcome need free o
    → Walked root need free h result o
    → Allocates need h free used size result o
allocates need h free used size result none i small w = (w, small)
allocates need h free used size result (some (a, free')) i fits (h', e, w) = (
  h',
  e,
  record {
    chain = unfold read_link in w.chain;
    headers = (
      w.magic,
      w.frames,
      Headers-Agree used {mem = h.memory} i.used_runs
          (λ x more. w.other x (omega (arith, i.apart x)) (unfold at_link in refl)) i.headers,
    );
    free_runs = fits.runs;
    used_runs = (fits.taken, i.used_runs);
    apart = λ x. unfold held in omega (arith, i.apart x, fits.bytes x);
    free_frames =
        unfold total in omega (arith, w.free, i.free_frames, fits.frames, i.all_frames, i.small);
    used_frames =
        unfold total in omega (arith, w.used, i.used_frames, fits.frames, i.all_frames, i.small);
    all_frames = unfold total in omega (arith, fits.frames, i.all_frames);
    small = i.small;
  },
  fits.bytes,
  λ x miss. w.other x miss (unfold at_link in refl),
)

not_root : (free : List Run) (x : ℕ) → at_link root x ≡ true → held x free ≡ 0
unfolding at_link
not_root free x e = cc

-- On a well-formed heap and for a request of at most 2 ^ 64 - 4112 bytes, whose rounding does not wrap,
-- `kmalloc` returns, and what it does is first fit on the free runs with the frames that the request
-- needs. The heap stays well formed: the new block overlaps no other.
pub kmalloc-Allocates :
    (bytes : ℕ) {h : Heap} {free used : List Run} {size : ℕ}
    → bytes ≤ max_size
    → IsHeap h free used size
    → Allocates
        (frames_for bytes)
        h
        free
        used
        size
        (kmalloc bytes h)
        (first_fit (frames_for bytes) free)
unfolding kmalloc
kmalloc-Allocates bytes {h} {free} {used} {size} small i =
    let pos : 0 < frames_for bytes = ground (arith, frames_for_lem bytes small) in
    allocates (frames_for bytes) h free used size _ (first_fit (frames_for bytes) free) i
      (first_fit_lem (frames_for bytes) free pos i.free_runs)
      (walk_lem 262_145 (frames_for bytes) root free h pos i.free_runs
        (λ x. omega (arith, i.apart x)) (not_root free) (unfold read_link in i.chain)
        (omega (arith, length-le-total free i.free_runs, i.all_frames, i.small)))
