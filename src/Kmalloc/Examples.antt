-- ===== src/Kmalloc/Examples.antt =====
-- The theorems on the heap at small heaps, and the requests of the boot self-test.
use nadir_kernel.Base.{ℕ, ◌+◌, ◌-◌, ◌*◌, ◌≤◌, ◌<◌, ◌^◌, ◌≡◌, refl, none, some, [], ◌∷◌, arith}
use nadir_kernel.Pmm.Sample.{booted, booted-IsCounted, booted_zero}
use nadir_kernel.Kmalloc.{Heap, frames_for, kmalloc, kfree, kmalloc_init, store, kmalloc_magic}
use nadir_kernel.Kmalloc.Runs.{run, hits, held, total, first_fit}
use nadir_kernel.Kmalloc.Alloc.{IsHeap, Allocates, frames_for_lem, kmalloc-Allocates}
use nadir_kernel.Kmalloc.Free.{first, kfree_lem, kfree-kfree}
use nadir_kernel.Kmalloc.Oversize.{kmalloc_oversize, kmalloc_zero_frames}
use nadir_kernel.Kmalloc.Churn.{Restored, kfree-kmalloc}
use nadir_kernel.Kmalloc.Sample.{blank, region, fresh, fresh-IsHeap}
use nadir_kernel.Kmalloc.Traces.{world, written, released, Reach, here, next, Sound, Reach-Sound}
use nadir_kernel.Kmalloc.Init.{Starts, kmalloc_init-Starts}

-- One frame of it in use.
busy : Heap
unfolding fresh
busy = (elim (kmalloc 100 fresh) [ none ↦ fresh | some (ptr, h) ↦ h ])

busy_lem : kmalloc 100 fresh ≡ some (0x10_0010, busy)
unfolding busy
busy_lem = refl

-- The three requests of the self-test take four frames, and `kfree` gives them back.
self_test_requests :
    (frames_for 100 ≡ 1) × (frames_for 5000 ≡ 2) × (frames_for 1 ≡ 1) × (frames_for 0 ≡ 1)
unfolding frames_for
self_test_requests = (refl, refl, refl, refl)

frames_for_lem_example :
    (5000 + 16 ≤ frames_for 5000 * 4096) × (frames_for 5000 * 4096 < 5000 + 16 + 4096)
frames_for_lem_example = frames_for_lem 5000 (omega arith)

kmalloc-Allocates_example :
    Allocates
      (frames_for 5000)
      fresh
      (region ∷ [])
      []
      8
      (kmalloc 5000 fresh)
      (first_fit (frames_for 5000) (region ∷ []))
kmalloc-Allocates_example = kmalloc-Allocates 5000 (omega arith) fresh-IsHeap

kfree-kmalloc_example : Restored (kfree 0x10_0010 busy) (region ∷ []) [] 8
kfree-kmalloc_example = kfree-kmalloc 100 (omega arith) fresh-IsHeap busy_lem (omega arith)

busy-IsHeap : IsHeap busy (run 0x10_1000 7 ∷ []) (run 0x10_0000 1 ∷ []) 8
unfolding busy held total hits
busy-IsHeap = record {
  chain = (refl, refl, refl);
  headers = (refl, refl, tt);
  free_runs = omega arith;
  used_runs = omega arith;
  apart = λ x. ground arith;
  free_frames = refl;
  used_frames = refl;
  all_frames = refl;
  small = omega arith;
}

kfree_lem_example :
    let h' = kfree 0x10_0010 busy in
    IsHeap h' (run 0x10_0000 1 ∷ run 0x10_1000 7 ∷ []) [] 8
    × ((x : ℕ) → hits x (run 0x10_0000 1) ≡ 0 → h'.memory x ≡ busy.memory x)
kfree_lem_example = kfree_lem busy-IsHeap (first [])

kfree-kfree_example : let h' = kfree 0x10_0010 busy in kfree 0x10_0010 h' ≡ h'
kfree-kfree_example = kfree-kfree busy-IsHeap (first [])

kmalloc_oversize_example : (h' : Heap) × (kmalloc (2 ^ 64 - 1) fresh ≡ some (0x10_0000 + 16, h'))
kmalloc_oversize_example = kmalloc_oversize (2 ^ 64 - 1) fresh-IsHeap (omega arith) (omega arith)

kmalloc_zero_frames_example :
    (h' : Heap) × (kmalloc (2 ^ 64 - 100) fresh ≡ some (0x10_0000 + 16, h'))
    × (h'.g_free_list ≡ 0x10_0000)
    × (h'.memory 0x10_0000 ≡ kmalloc_magic)
kmalloc_zero_frames_example =
    kmalloc_zero_frames (2 ^ 64 - 100) fresh-IsHeap (omega arith) (omega arith)

kmalloc_init-Starts_example : let (h', q) = kmalloc_init booted blank in Starts booted h' q
kmalloc_init-Starts_example = kmalloc_init-Starts booted blank booted-IsCounted booted_zero

-- A block of one frame is written and given back.
churn :
    Reach (world busy (run 0x10_0000 1 ∷ [])) (world (kfree 0x10_0010 (store 0x10_0010 7 busy)) [])
unfolding hits
churn =
    next
      (next here (
        written 0x10_0010 7 busy (run 0x10_0000 1) (run 0x10_0000 1 ∷ []) [] (first [])
          (record { aligned = omega arith; above = omega arith; below = omega arith })))
      (released (store 0x10_0010 7 busy) (run 0x10_0000 1) (run 0x10_0000 1 ∷ []) [] (first []))

busy_bytes : ℕ → ℕ
busy_bytes x = held x (run 0x10_1000 7 ∷ []) + held x (run 0x10_0000 1 ∷ [])

busy-Sound : Sound 8 busy_bytes (world busy (run 0x10_0000 1 ∷ []))
unfolding busy_bytes
busy-Sound = record { free = run 0x10_1000 7 ∷ []; heap_eq = busy-IsHeap; bytes = λ x. refl }

Reach-Sound_example : Sound 8 busy_bytes (world (kfree 0x10_0010 (store 0x10_0010 7 busy)) [])
Reach-Sound_example = Reach-Sound busy-Sound churn
