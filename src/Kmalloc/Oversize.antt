-- ===== src/Kmalloc/Oversize.antt =====
-- Requests within 4111 bytes of 2 ^ 64: the rounding of `frames_for` wraps.
use nadir_kernel.Base.{
  ℕ, suc, ◌+◌, ◌-◌, ◌*◌, ◌^◌, ◌≤◌, ◌<◌, ◌≡◌, refl, true, some, List, ◌∷◌, arith, ltb, if◌then◌else◌,
  add64, beq_of_ne, beq_of_eq, ◌∙◌, ap, le→leb, lt→ltb,
}
use nadir_kernel.Kmalloc.{
  Heap, frames_at, frames_for, root, read_link, walk, carve, kmalloc, kmalloc_magic,
}
use nadir_kernel.Kmalloc.Runs.{Run, IsRun}
use nadir_kernel.Kmalloc.Chain.{frames_at_lem}
use nadir_kernel.Kmalloc.Carve.{at_link, split_memory, carve_ptr, carve_next}
use nadir_kernel.Kmalloc.Alloc.{IsHeap, max_size}

-- A request that is too large for 64 bits is rounded to one frame or to none.
pub frames_for_wraps : (size : ℕ) → max_size < size → size < 2 ^ 64 → frames_for size ≤ 1
unfolding frames_for
frames_for_wraps size h k = ground arith

-- A request of no frames at all: within 16 to 4111 bytes of 2 ^ 64.
pub frames_for-zero : (size : ℕ) → max_size < size → size ≤ 2 ^ 64 - 16 → frames_for size ≡ 0
unfolding frames_for
frames_for-zero size h k = ground arith

walk_first :
    (fuel need : ℕ) (r : Run) (h : Heap)
    → IsRun r
    → h.g_free_list ≡ r.start
    → need ≤ h.memory (frames_at h.g_free_list)
    → walk (suc fuel) need root h ≡ some (carve need root r.start h)
unfolding walk read_link
walk_first fuel need r h v e fit =
    rw (
      e,
      beq_of_ne r.start 0 (omega arith),
      le→leb need (h.memory (frames_at r.start)) (rw e at fit),
    )

list_after :
    (need p : ℕ) (h : Heap)
    → (carve need root p h).1.g_free_list
      ≡ (if ltb need (h.memory (frames_at p)) then add64 p (need * 4096) else h.memory p)
unfolding read_link at_link
list_after need p h = carve_next need root p h refl refl

module _ (size : ℕ) {r : Run} {h : Heap} {free used : List Run} {n : ℕ}
    (i : IsHeap h (r ∷ free) used n) where
  carve_first :
      frames_for size ≤ 1
      → kmalloc size h ≡ some (r.start + 16, (carve (frames_for size) root r.start h).1)
  unfolding kmalloc
  carve_first one =
      let v = i.free_runs.0 in
      walk_first 262_144 (frames_for size) r h v i.chain.0 (omega (arith, i.chain.1, v.frames))
      ∙ ap (λ (ptr : ℕ). some (ptr, (carve (frames_for size) root r.start h).1))
          (carve_ptr (frames_for size) root r.start h ∙ omega (arith, v.inside))

  -- A request that does not fit 64 bits with its header and rounding succeeds whenever a run is free.
  pub kmalloc_oversize :
      max_size < size → size < 2 ^ 64 → (h' : Heap) × (kmalloc size h ≡ some (r.start + 16, h'))
  kmalloc_oversize big small =
      ((carve (frames_for size) root r.start h).1, carve_first (frames_for_wraps size big small))

  -- Where such a request rounds to no frame, the block handed out is still the head of the free list,
  -- and its link to the next free run has been overwritten by the magic number.
  pub kmalloc_zero_frames :
      max_size < size
      → size ≤ 2 ^ 64 - 16
      → (h' : Heap) × (kmalloc size h ≡ some (r.start + 16, h'))
        × (h'.g_free_list ≡ r.start)
        × (h'.memory r.start ≡ kmalloc_magic)
  kmalloc_zero_frames big small =
      let v = i.free_runs.0 in
      let none' = frames_for-zero size big small in
      let size' : h.memory (frames_at r.start) ≡ r.frames = rw i.chain.0 at i.chain.1 in
      let less : ltb (frames_for size) (h.memory (frames_at r.start)) ≡ true =
        rw (none', size') (lt→ltb 0 r.frames v.frames) in
      (
        (carve (frames_for size) root r.start h).1,
        carve_first (omega (arith, none')),
        list_after (frames_for size) r.start h ∙ rw (less, none') (omega (arith, v.inside)),
        split_memory (frames_for size) root r.start h r.start less
            ∙ rw (
              beq_of_ne (frames_at r.start) r.start (omega (arith, frames_at_lem r v)),
              beq_of_eq r.start r.start refl,
            ),
      )
