-- ===== src/Kmalloc/Carve.antt =====
-- The body of the loop of `kmalloc`: the memory, link and counters that `carve` leaves.
use nadir_kernel.Base.{
  ℕ, ◌*◌, ◌≤◌, ◌≡◌, Bool, true, false, List, arith, ltb, ◌==◌, if◌then◌else◌, add64, sub64,
}
use nadir_kernel.Kmalloc.{
  Heap, kmalloc_magic, frames_at, Link, root, next_of, read_link, write_link, store, split, stamp,
  carve,
}
use nadir_kernel.Kmalloc.Runs.{Run, held}
use nadir_kernel.Kmalloc.Chain.{Chain}

-- `x` is the address of the link.
unfoldable pub at_link : Link → ℕ → Bool
at_link root x = false
at_link (next_of q) x = q == x

-- The list head moves only if it is the link.
abbrev pub KeepsList : Link → Heap → Heap → Type 0
KeepsList root h h' = Unit
KeepsList (next_of q) h h' = h'.g_free_list ≡ h.g_free_list

-- What a successful walk from `link` over the runs `rs` leaves: the link leads through `rs'`, the
-- run at `a` has its header, and memory outside the runs and the link is as it was.
pub record Carved (link : Link) (need : ℕ) (rs : List Run) (a : ℕ) (rs' : List Run) (h h' : Heap)
    : Type 0 where
  pub chain : Chain h'.memory (read_link link h') rs'
  pub magic : h'.memory a ≡ kmalloc_magic
  pub frames : h'.memory (frames_at a) ≡ need
  pub other : (x : ℕ) → held x rs ≡ 0 → at_link link x ≡ false → h'.memory x ≡ h.memory x
  pub list : KeepsList link h h'
  pub free : h'.g_free_frames ≡ sub64 h.g_free_frames need
  pub used : h'.g_used_frames ≡ add64 h.g_used_frames need

-- The memory after `carve` splits the run at `p`.
pub split_memory :
    (need : ℕ) (link : Link) (p : ℕ) (h : Heap) (x : ℕ)
    → ltb need (h.memory (frames_at p)) ≡ true
    → let tail = add64 p (need * 4096) in
      (carve need link p h).1.memory x ≡ (
        if frames_at p == x
        then need
        else if p == x
        then kmalloc_magic
        else if at_link link x
        then tail
        else if frames_at tail == x
        then sub64 (if tail == frames_at p then h.memory p else h.memory (frames_at p)) need
        else if tail == x
        then h.memory p
        else h.memory x)
unfolding carve split stamp store write_link at_link
split_memory need root p h x less = rw less
split_memory need (next_of q) p h x less = rw less

-- The memory after `carve` takes the whole run at `p`.
pub whole_memory :
    (need : ℕ) (link : Link) (p : ℕ) (h : Heap) (x : ℕ)
    → ltb need (h.memory (frames_at p)) ≡ false
    → (carve need link p h).1.memory x ≡ (
        if frames_at p == x
        then h.memory (frames_at p)
        else if p == x
        then kmalloc_magic
        else if at_link link x
        then h.memory p
        else h.memory x)
unfolding carve stamp store write_link at_link
whole_memory need root p h x all = rw all
whole_memory need (next_of q) p h x all = rw all

pub carve_list :
    (need : ℕ) (link : Link) (p : ℕ) (h : Heap) → KeepsList link h (carve need link p h).1
unfolding carve split stamp store write_link
carve_list need root p h = tt
carve_list need (next_of q) p h = ground arith

pub carve_counters :
    (need : ℕ) (link : Link) (p : ℕ) (h : Heap)
    → need ≤ h.memory (frames_at p)
    → let h' = (carve need link p h).1 in
      (h'.g_free_frames ≡ sub64 h.g_free_frames need)
      × (h'.g_used_frames ≡ add64 h.g_used_frames need)
unfolding carve split stamp store write_link
carve_counters need root p h le = ground arith
carve_counters need (next_of q) p h le = ground arith

pub carve_ptr : (need : ℕ) (link : Link) (p : ℕ) (h : Heap) → (carve need link p h).0 ≡ add64 p 16
unfolding carve stamp
carve_ptr need link p h = ground arith

-- Where the link leads after `carve`.
pub carve_next :
    (need : ℕ) (link : Link) (p : ℕ) (h : Heap)
    → at_link link p ≡ false
    → at_link link (frames_at p) ≡ false
    → read_link link (carve need link p h).1
      ≡ (if ltb need (h.memory (frames_at p)) then add64 p (need * 4096) else h.memory p)
unfolding carve split stamp store write_link read_link at_link
carve_next need root p h out out' = ground arith
carve_next need (next_of q) p h out out' = ground arith
