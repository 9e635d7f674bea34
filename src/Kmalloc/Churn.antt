-- ===== src/Kmalloc/Churn.antt =====
-- `kmalloc` and `kfree` together.
use nadir_kernel.Base.{ℕ, ◌≤◌, ◌≡◌, ◌≢◌, sym, ◌∙◌, ap, Option, none, some, List, ◌∷◌, arith}
use mathlib.Core.Option.{some-injective}
use mathlib.Core.Path.{subst}
use nadir_kernel.Kmalloc.{Heap, frames_for, kmalloc, kfree}
use nadir_kernel.Kmalloc.Runs.{Run, run, held, first_fit}
use nadir_kernel.Kmalloc.Alloc.{IsHeap, Allocates, max_size, kmalloc-Allocates}
use nadir_kernel.Kmalloc.Free.{first, kfree_lem}

-- The heap is well formed with the blocks `used`, and every byte that was free in `free` is free.
pub record Restored (h : Heap) (free used : List Run) (n : ℕ) : Type 0 where
  pub runs : List Run
  pub heap : IsHeap h runs used n
  pub bytes : (x : ℕ) → held x runs ≡ held x free

restored :
    (need : ℕ) (h : Heap) (free used : List Run) (n ptr : ℕ) (h' : Heap)
    (result : Option (ℕ × Heap)) (o : Option (ℕ × List Run))
    → Allocates need h free used n result o
    → result ≡ some (ptr, h')
    → ptr ≢ 0
    → Restored (kfree ptr h') free used n
restored need h free used n ptr h' result none (e, _) got live =
    absurd (live (ap (λ (r : ℕ × Heap). r.0) (some-injective _ _ (sym got ∙ e))))
restored need h free used n ptr h' result (some (a, free')) (h1, e, i, bytes, _) got live =
    let same = some-injective _ _ (sym e ∙ got) in
    subst (λ (r : ℕ × Heap). Restored (kfree r.0 r.1) free used n) same
      (record {
        runs = run a need ∷ free';
        heap = (kfree_lem i (first used)).0;
        bytes = λ x. unfold held in omega (arith, bytes x);
      })

-- On a well-formed heap, freeing the block that `kmalloc` has just returned for a request of at most
-- 2 ^ 64 - 4112 bytes gives a well-formed heap with the same blocks in use and the same bytes free (in
-- other runs, perhaps: runs are not joined).
pub kfree-kmalloc :
    (size : ℕ) {h h' : Heap} {free used : List Run} {n ptr : ℕ}
    → size ≤ max_size
    → IsHeap h free used n
    → kmalloc size h ≡ some (ptr, h')
    → ptr ≢ 0
    → Restored (kfree ptr h') free used n
kfree-kmalloc size {h} {h'} {free} {used} {n} {ptr} small i got live =
    restored (frames_for size) h free used n ptr h' (kmalloc size h)
      (first_fit (frames_for size) free) (kmalloc-Allocates size small i) got live
