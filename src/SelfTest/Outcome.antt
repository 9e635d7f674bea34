-- ===== src/SelfTest/Outcome.antt =====
-- The self-test as a whole.
use nadir_kernel.Base.{
  ℕ, ◌+◌, ◌-◌, ◌*◌, ◌≤◌, ◌<◌, ◌≡◌, refl, ap, ◌∙◌, sym, Bool, true, not, ◌||◌, List, [], ◌∷◌, ◌++◌,
  Option, some, arith, ◌==◌, Bool-cases, inl, inr, le→leb,
}
use mathlib.Core.Path.{subst}
use mathlib.Core.Option.{some-injective}
use nadir_kernel.Kmalloc.{Heap, frames_for, kmalloc, kfree}
use nadir_kernel.Kmalloc.Runs.{Run, run, held, first_fit, rest_of}
use nadir_kernel.Kmalloc.Alloc.{IsHeap, Allocates, max_size, kmalloc-Allocates}
use nadir_kernel.SelfTest.{try_blocks, free_blocks, self_test}
use nadir_kernel.SelfTest.Bytes.{try_blocks_ok}
use nadir_kernel.SelfTest.Blocks.{
  Drops, Drops-append, kmalloc-Given, Freed, kfree-Freed, kfree_null, exercise-IsHeap, block_below,
}

sizes : (frames_for 100 ≡ 1) × (frames_for 5000 ≡ 2) × (frames_for 1 ≡ 1)
unfolding frames_for
sizes = (refl, refl, refl)

-- The test ran to its end: it reports `ok`, which is true if and only if none of the three requests
-- was refused, and the heap has the blocks that it had before, and the same bytes in its runs.
pub record Tested (h : Heap) (free used : List Run) (n : ℕ) (result : Option (Bool × Heap))
    : Type 0 where
  pub a : ℕ
  pub b : ℕ
  pub c : ℕ
  pub h1 : Heap
  pub h2 : Heap
  pub h3 : Heap
  pub heap : Heap
  pub free' : List Run
  pub asks_a : kmalloc 100 h ≡ some (a, h1)
  pub asks_b : kmalloc 5000 h1 ≡ some (b, h2)
  pub asks_c : kmalloc 1 h2 ≡ some (c, h3)
  pub result_eq : result ≡ some (not (a == 0 || b == 0 || c == 0), heap)
  pub well : IsHeap heap free' used n
  pub bytes : (x : ℕ) → held x free' + held x used ≡ held x free + held x used

module _ {a b c n : ℕ} {h : Heap} {free : List Run} (used ba bb bc : List Run)
    (w : IsHeap h free (bc ++ (bb ++ (ba ++ used))) n)
    (da : (base : List Run) → Drops 1 a (ba ++ base) base)
    (db : (base : List Run) → Drops 2 b (bb ++ base) base)
    (dc : (base : List Run) → Drops 1 c (bc ++ base) base) where
  written : IsHeap (try_blocks a b c h).1 free (bc ++ (bb ++ (ba ++ used))) n
  unfolding try_blocks
  written = elim (Bool-cases (a == 0 || b == 0 || c == 0)) [
    | inl none' ↦ rw none' w
    | inr all ↦ rw all (
        exercise-IsHeap w (ground arith) (ground arith)
          (Drops-append bc (Drops-append bb (da used))) (Drops-append bc (db (ba ++ used))))
  ]

  tested_ok : (try_blocks a b c h).0 ≡ not (a == 0 || b == 0 || c == 0)
  tested_ok =
      try_blocks_ok a b c h
        (omega (arith, block_below w (Drops-append bc (Drops-append bb (da used)))))
        (omega (arith, block_below w (Drops-append bc (db (ba ++ used)))))

  released :
      Freed (free_blocks a b c (try_blocks a b c h).1) free (bc ++ (bb ++ (ba ++ used))) used n
  unfolding free_blocks
  released =
      let fa = kfree-Freed written (Drops-append bc (Drops-append bb (da used))) in
      let fb = kfree-Freed fa.well (Drops-append bc (db used)) in
      let fc = kfree-Freed fb.well (dc used) in
      rw (kfree_null 0 (kfree c (kfree b (kfree a (try_blocks a b c h).1))) refl) (record {
        free' = fc.free';
        well = fc.well;
        bytes = λ x. fc.bytes x ∙ fb.bytes x ∙ fa.bytes x;
      })

-- On a well-formed heap the self-test of `kmain` runs to its end. It reports success if and only if none
-- of the three requests was refused; the writes damage no header and no free run, and the calls of
-- `kfree` leave a well-formed heap with the blocks that were in use before and every byte in a run as
-- before.
pub self_test-Tested :
    {free used : List Run} {n : ℕ} (h : Heap)
    → IsHeap h free used n
    → Tested h free used n (self_test h)
unfolding self_test
self_test-Tested {free} {used} {n} h i =
    let (n100, n5000, n1) = sizes in
    let ga = kmalloc-Given 100 (omega arith) i in
    let gb = kmalloc-Given 5000 (omega arith) ga.well in
    let gc = kmalloc-Given 1 (omega arith) gb.well in
    let da =
      subst (λ (k : ℕ). (base : List Run) → Drops k ga.ptr (ga.taken ++ base) base) n100 ga.drops in
    let db =
      subst (λ (k : ℕ). (base : List Run) → Drops k gb.ptr (gb.taken ++ base) base) n5000
        gb.drops in
    let dc =
      subst (λ (k : ℕ). (base : List Run) → Drops k gc.ptr (gc.taken ++ base) base) n1 gc.drops in
    let freed = released used ga.taken gb.taken gc.taken gc.well da db dc in
    let ok = tested_ok used ga.taken gb.taken gc.taken gc.well da db dc in
    rw (ga.result_eq, gb.result_eq, gc.result_eq)
      (record {
        a = ga.ptr;
        b = gb.ptr;
        c = gc.ptr;
        h1 = ga.heap;
        h2 = gb.heap;
        h3 = gc.heap;
        asks_a = ga.result_eq;
        asks_b = gb.result_eq;
        asks_c = gc.result_eq;
        heap = free_blocks ga.ptr gb.ptr gc.ptr (try_blocks ga.ptr gb.ptr gc.ptr gc.heap).1;
        free' = freed.free';
        result_eq = rw ok refl;
        well = freed.well;
        bytes = λ x. freed.bytes x ∙ gc.bytes x ∙ gb.bytes x ∙ ga.bytes x;
      })

-- A request that the one free run can hold.
record Served (size need s k : ℕ) (h : Heap) (used : List Run) (n : ℕ) : Type 0 where
  ptr : ℕ
  heap : Heap
  result : kmalloc size h ≡ some (ptr, heap)
  live : 0 < ptr
  well : IsHeap heap (rest_of need (run s k) []) (run s need ∷ used) n

serve :
    (size need s k : ℕ) {h : Heap} {used : List Run} {n : ℕ}
    → size ≤ max_size
    → frames_for size ≡ need
    → need ≤ k
    → IsHeap h (run s k ∷ []) used n
    → Served size need s k h used n
serve size need s k {h} {used} {n} small frames room i =
    let fits : first_fit need (run s k ∷ []) ≡ some (s, rest_of need (run s k) []) =
      (unfold first_fit in rw (le→leb need k room) refl) in
    let allocates =
      subst
        (λ (m : ℕ).
          Allocates m h (run s k ∷ []) used n (kmalloc size h) (first_fit m (run s k ∷ [])))
        frames (kmalloc-Allocates size small i) in
    let (h', e, i', _, _) =
      subst (Allocates need h (run s k ∷ []) used n (kmalloc size h)) fits allocates in
    record { ptr = s + 16; heap = h'; result = e; live = omega arith; well = i' }

rest_lem :
    (need s k : ℕ) → need < k → rest_of need (run s k) [] ≡ run (s + need * 4096) (k - need) ∷ []
unfolding rest_of
rest_lem need s k h = ground arith

same_call :
    (size : ℕ) (g h : Heap) {p q : ℕ} {g' h' : Heap}
    → kmalloc size g ≡ some (p, g')
    → g ≡ h
    → kmalloc size h ≡ some (q, h')
    → (p ≡ q) × (g' ≡ h')
same_call size g h {p} {q} {g'} {h'} e same f =
    let pair = some-injective (p, g') (q, h') (sym e ∙ ap (kmalloc size) same ∙ f) in
    (ap (λ (r : ℕ × Heap). r.0) pair, ap (λ (r : ℕ × Heap). r.1) pair)

all_live : (a b c : ℕ) → 0 < a → 0 < b → 0 < c → not (a == 0 || b == 0 || c == 0) ≡ true
all_live a b c ha hb hc = ground arith

-- On a heap whose free list is one run of at least four frames the self-test reports success.
pub self_test_passes :
    (s k : ℕ) {used : List Run} {n : ℕ} (h : Heap)
    → IsHeap h (run s k ∷ []) used n
    → 4 ≤ k
    → (h' : Heap) × (self_test h ≡ some (true, h'))
self_test_passes s k {used} {n} h i enough =
    let (n100, n5000, n1) = sizes in
    let a = serve 100 1 s k (omega arith) n100 (omega arith) i in
    let wa : IsHeap a.heap (run (s + 4096) (k - 1) ∷ []) (run s 1 ∷ used) n =
      rw (rest_lem 1 s k (omega arith)) at a.well in
    let b = serve 5000 2 (s + 4096) (k - 1) (omega arith) n5000 (omega arith) wa in
    let wb : IsHeap b.heap (run (s + 4096 + 2 * 4096) (k - 1 - 2) ∷ [])
        (run (s + 4096) 2 ∷ run s 1 ∷ used) n =
      rw (rest_lem 2 (s + 4096) (k - 1) (omega arith)) at b.well in
    let c = serve 1 1 (s + 4096 + 2 * 4096) (k - 1 - 2) (omega arith) n1 (omega arith) wb in
    let t = self_test-Tested h i in
    let (ta, h1) = same_call 100 h h t.asks_a refl a.result in
    let (tb, h2) = same_call 5000 t.h1 a.heap t.asks_b h1 b.result in
    let (tc, h3) = same_call 1 t.h2 b.heap t.asks_c h2 c.result in
    let ok : not (t.a == 0 || t.b == 0 || t.c == 0) ≡ true =
      rw (ta, tb, tc) (all_live a.ptr b.ptr c.ptr a.live b.live c.live) in
    (t.heap, t.result_eq ∙ rw ok refl)
