-- ===== src/SelfTest/Bytes.antt =====
-- What the loops of the self-test write and read.
use nadir_kernel.Base.{
  ℕ, zero, suc, ◌+◌, ◌%◌, ◌^◌, ◌≤◌, ◌<◌, ◌≡◌, refl, ◌∙◌, Bool, true, not, ◌||◌, arith, ◌==◌,
  if◌then◌else◌, add64, Bool-cases, inl, inr, beq_of_ne, beq_of_eq, eq_of_beq,
}
use nadir_kernel.Base.Bytes.{get_byte-put_byte}
use nadir_kernel.Kmalloc.{Heap}
use nadir_kernel.SelfTest.{set_elem, get_elem, fill, check, exercise, try_blocks}

get_elem-set_elem :
    (a i j v : ℕ) (h : Heap)
    → a + i < 2 ^ 64
    → a + j < 2 ^ 64
    → get_elem a j (set_elem a i v h) ≡ (if i == j then v % 256 else get_elem a j h)
unfolding get_elem set_elem
get_elem-set_elem a i j v h hi hj =
    let same : (add64 a i == add64 a j) ≡ (i == j) = ground arith in
    get_byte-put_byte (add64 a j) (add64 a i) v h.memory ∙ rw same refl

fill_below :
    (n i a j : ℕ) (h : Heap)
    → a + (i + n) ≤ 2 ^ 64
    → j < i
    → get_elem a j (fill n i a h) ≡ get_elem a j h
unfolding fill
fill_below zero i a j h room lt = refl
fill_below (suc n) i a j h room lt =
    fill_below n (i + 1) a j (set_elem a i i h) (omega arith) (omega arith)
    ∙ get_elem-set_elem a i j i h (omega arith) (omega arith)
    ∙ rw (beq_of_ne i j (omega arith)) refl

fill_inside :
    (n i a j : ℕ) (h : Heap)
    → a + (i + n) ≤ 2 ^ 64
    → i ≤ j
    → j < i + n
    → get_elem a j (fill n i a h) ≡ j % 256
unfolding fill
fill_inside zero i a j h room lo hi = absurd (omega arith)
fill_inside (suc n) i a j h room lo hi = elim (Bool-cases (i == j)) [
  | inl e ↦
      fill_below n (i + 1) a j (set_elem a i i h) (omega arith) (ground arith)
      ∙ get_elem-set_elem a i j i h (omega arith) (omega arith)
      ∙ rw (e, eq_of_beq i j e) refl
  | inr ne ↦ fill_inside n (i + 1) a j (set_elem a i i h) (omega arith) (ground arith) (omega arith)
]

check_passes :
    (n i a : ℕ) (h : Heap) (ok : Bool)
    → ((j : ℕ) → i ≤ j → j < i + n → get_elem a j h ≡ j % 256)
    → check n i a h ok ≡ ok
unfolding check
check_passes zero i a h ok all = refl
check_passes (suc n) i a h ok all =
    rw (all i (omega arith) (omega arith), beq_of_eq (i % 256) (i % 256) refl)
      (check_passes n (i + 1) a h ok (λ j lo hi. all j (omega arith) (omega arith)))

exercise_ok :
    (a b : ℕ) (h : Heap) → a + 100 ≤ 2 ^ 64 → b + 5000 ≤ 2 ^ 64 → (exercise a b h).0 ≡ true
unfolding exercise
exercise_ok a b h ra rb =
    let h1 = fill 100 0 a h in
    let h2 = set_elem b 0 0xaa h1 in
    let h3 = set_elem b 4999 0x55 h2 in
    let passes : check 100 0 a h1 true ≡ true =
      check_passes 100 0 a h1 true (λ j lo hi. fill_inside 100 0 a j h (omega arith) lo hi) in
    let at_0 : get_elem b 0 h3 ≡ 0xaa =
      get_elem-set_elem b 4999 0 0x55 h2 (omega arith) (omega arith)
      ∙ get_elem-set_elem b 0 0 0xaa h1 (omega arith) (omega arith) in
    let at_end : get_elem b 4999 h3 ≡ 0x55 =
      get_elem-set_elem b 4999 4999 0x55 h2 (omega arith) (omega arith) in
    rw (at_0, at_end, passes) refl

-- The test passes exactly when there are three blocks, whatever the memory holds.
pub try_blocks_ok :
    (a b c : ℕ) (h : Heap)
    → a + 100 ≤ 2 ^ 64
    → b + 5000 ≤ 2 ^ 64
    → (try_blocks a b c h).0 ≡ not (a == 0 || b == 0 || c == 0)
unfolding try_blocks
try_blocks_ok a b c h ra rb = elim (Bool-cases (a == 0 || b == 0 || c == 0)) [
  | inl none' ↦ rw none' refl
  | inr all ↦ rw all (exercise_ok a b h ra rb)
]
