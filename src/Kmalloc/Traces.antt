-- ===== src/Kmalloc/Traces.antt =====
-- Runs of the heap's users: calls of `kmalloc` and `kfree`, and writes to the blocks.
use nadir_kernel.Base.{
  ◌%◌, ℕ, ◌+◌, ◌-◌, ◌≤◌, ◌≡◌, ◌≢◌, ap, ◌∙◌, sym, false, Option, none, some, List, ◌∷◌, arith, ◌==◌,
  sub64,
}
use mathlib.Core.Option.{some-injective}
use mathlib.Core.Path.{subst}
use nadir_kernel.Kmalloc.{Heap, frames_for, kmalloc, kfree, kmalloc_magic, store}
use nadir_kernel.Kmalloc.Runs.{Run, run, held, first_fit}
use nadir_kernel.Kmalloc.Alloc.{IsHeap, Allocates, max_size, kmalloc-Allocates}
use nadir_kernel.Kmalloc.Free.{Removes, held-Removes, kfree_lem, kfree_bad}
use nadir_kernel.Kmalloc.Payload.{IsPayload, store-IsHeap}

-- The heap and the blocks that its users hold.
pub record World : Type 0 where
  pub heap : Heap
  pub blocks : List Run

abbrev pub world : Heap → List Run → World
world h bs = record { heap = h; blocks = bs }

-- A user asks for a block, gives one back, calls `kfree` on an address divisible by 8 that has no header in
-- front of it, or writes a word of a block behind its header, or a byte of such a word.
pub data Step : World → World → Type 0 where
  given :
      (size ptr : ℕ) (h h' : Heap) (bs : List Run)
      → size ≤ max_size
      → kmalloc size h ≡ some (ptr, h')
      → ptr ≢ 0
      → Step (world h bs) (world h' (run (ptr - 16) (frames_for size) ∷ bs))
  refused :
      (size : ℕ) (h h' : Heap) (bs : List Run)
      → size ≤ max_size
      → kmalloc size h ≡ some (0, h')
      → Step (world h bs) (world h' bs)
  released :
      (h : Heap) (r : Run) (bs rest : List Run)
      → Removes r bs rest
      → Step (world h bs) (world (kfree (r.start + 16) h) rest)
  ignored :
      (ptr : ℕ) (h : Heap) (bs : List Run)
      → ptr % 8 ≡ 0
      → (h.memory (sub64 ptr 16) == kmalloc_magic) ≡ false
      → Step (world h bs) (world (kfree ptr h) bs)
  written :
      (x w : ℕ) (h : Heap) (r : Run) (bs rest : List Run)
      → Removes r bs rest
      → IsPayload x r
      → Step (world h bs) (world (store x w h) bs)

pub data Reach (w : World) : World → Type 0 where
  here : Reach w w
  next : {u v : World} → Reach w u → Step u v → Reach w v

-- The heap is well formed with the blocks of its users, and the bytes of free runs and blocks together
-- are those of `all`.
pub record Sound (size : ℕ) (all : ℕ → ℕ) (w : World) : Type 0 where
  pub free : List Run
  pub heap_eq : IsHeap w.heap free w.blocks size
  pub bytes : (x : ℕ) → held x free + held x w.blocks ≡ all x

allocated :
    (need : ℕ) (h : Heap) (free bs : List Run) (size ptr : ℕ) (h' : Heap) (all : ℕ → ℕ)
    (result : Option (ℕ × Heap)) (o : Option (ℕ × List Run))
    → Allocates need h free bs size result o
    → ((x : ℕ) → held x free + held x bs ≡ all x)
    → result ≡ some (ptr, h')
    → ptr ≢ 0
    → Sound size all (world h' (run (ptr - 16) need ∷ bs))
allocated need h free bs size ptr h' all result none (e, _) sum got live =
    absurd (live (ap (λ (r : ℕ × Heap). r.0) (some-injective _ _ (sym got ∙ e))))
allocated need h free bs size ptr h' all result (some (a, free')) (h1, e, i, bytes, _) sum got
      live =
    let same = some-injective _ _ (sym e ∙ got) in
    let start : a ≡ ptr - 16 = omega (arith, ap (λ (r : ℕ × Heap). r.0) same) in
    let heap : h1 ≡ h' = ap (λ (r : ℕ × Heap). r.1) same in
    subst (λ (g : Heap). Sound size all (world g (run (ptr - 16) need ∷ bs))) heap
      (subst (λ (b : ℕ). Sound size all (world h1 (run b need ∷ bs))) start
        (record {
          free = free';
          heap_eq = i;
          bytes = λ x. unfold held in omega (arith, bytes x, sum x);
        }))

not_allocated :
    (need : ℕ) (h : Heap) (free bs : List Run) (size : ℕ) (h' : Heap) (result : Option (ℕ × Heap))
    (o : Option (ℕ × List Run))
    → Allocates need h free bs size result o
    → result ≡ some (0, h')
    → h ≡ h'
not_allocated need h free bs size h' result none (e, _) got =
    ap (λ (r : ℕ × Heap). r.1) (some-injective _ _ (sym e ∙ got))
not_allocated need h free bs size h' result (some (a, free')) (h1, e, i, bytes, _) got =
    let clash : a + 16 ≡ 0 = ap (λ (r : ℕ × Heap). r.0) (some-injective _ _ (sym e ∙ got)) in
    absurd (omega (arith, clash))

Step-Sound : {size : ℕ} {all : ℕ → ℕ} {u v : World} → Step u v → Sound size all u → Sound size all v
Step-Sound {size} {all} (given n ptr h h' bs small got live) s =
    allocated (frames_for n) h s.free bs size ptr h' all (kmalloc n h)
      (first_fit (frames_for n) s.free) (kmalloc-Allocates n small s.heap_eq) s.bytes got live
Step-Sound {size} {all} (refused n h h' bs small got) s =
    subst (λ (g : Heap). Sound size all (world g bs))
      (not_allocated (frames_for n) h s.free bs size h' (kmalloc n h)
        (first_fit (frames_for n) s.free) (kmalloc-Allocates n small s.heap_eq) got)
      s
Step-Sound (released h r bs rest m) s = record {
  free = r ∷ s.free;
  heap_eq = (kfree_lem s.heap_eq m).0;
  bytes = λ x. unfold held in omega (arith, s.bytes x, held-Removes x m);
}
Step-Sound {size} {all} (ignored ptr h bs aligned bad) s =
    subst (λ (g : Heap). Sound size all (world g bs)) (sym (kfree_bad ptr h bad)) s
Step-Sound (written x w h r bs rest m p) s = record {
  free = s.free;
  heap_eq = store-IsHeap x w s.heap_eq m p;
  bytes = s.bytes;
}

-- However blocks of at most 2 ^ 64 - 4112 bytes are asked for, written behind their headers in words at
-- addresses divisible by 8, and given back, and with `kfree` called on addresses divisible by 8 without a
-- header in between, a well-formed heap stays well formed with the blocks in use: no two overlap, no byte
-- is lost or gained, and the counters are right.
pub Reach-Sound :
    {size : ℕ} {all : ℕ → ℕ} {u v : World} → Sound size all u → Reach u v → Sound size all v
Reach-Sound s here = s
Reach-Sound s (next r st) = Step-Sound st (Reach-Sound s r)
