-- ===== src/Base/Bits.antt =====
-- Single bits of a byte: the idioms `b |= 1U << i`, `b &= ~(1U << i)` and `(b & (1U << i)) != 0`.
use Prim.Native.Nat.{ℕ, zero, suc, ◌-◌, ◌%◌, ◌^◌, ◌<◌, bit_and, bit_or}
use mathlib.Core.Path.{◌≡◌, refl}
use mathlib.Core.Bool.{Bool, true, false, ◌&&◌, ◌||◌, not}
use native.Mathlib.Omega.{arith}
use nadir_kernel.Base.Tests.{◌==◌, ltb, ltb→lt}

-- `b | (uint8_t)(1U << i)`
unfoldable pub set_flag : ℕ → ℕ → ℕ
set_flag b i = bit_or b (2 ^ i % 256)

-- `b & (uint8_t)~(1U << i)`
unfoldable pub clear_flag : ℕ → ℕ → ℕ
clear_flag b i = bit_and b (255 - 2 ^ i % 256)

-- `(b & (uint8_t)(1U << i)) != 0`
unfoldable pub has_flag : ℕ → ℕ → Bool
has_flag b i = not (bit_and b (2 ^ i % 256) == 0)

-- Every value of a small range is checked by evaluation.
unfoldable pub all_below : ℕ → (ℕ → Bool) → Bool
all_below zero p = true
all_below (suc n) p = p n && all_below n p

pub all_below_sound : (n : ℕ) (p : ℕ → Bool) (x : ℕ) → all_below n p ≡ true → x < n → p x ≡ true
unfolding all_below
all_below_sound zero p x h lt = elim lt [ ]
all_below_sound (suc n) p x h lt = ground (arith, all_below_sound n p x)

same : Bool → Bool → Bool
same true b = b
same false b = not b

same→eq : (a b : Bool) → same a b ≡ true → a ≡ b
unfolding same
same→eq a b h = ground arith

law : (ℕ → ℕ → ℕ → Bool) → Bool
law p = all_below 256 (λ b. all_below 8 (λ i. all_below 8 (λ j. p b i j)))

law_sound :
    (p : ℕ → ℕ → ℕ → Bool) (b i j : ℕ) → law p ≡ true → b < 256 → i < 8 → j < 8 → p b i j ≡ true
unfolding law
law_sound p b i j h hb hi hj =
    all_below_sound 8 _ j
      (all_below_sound 8 _ i
        (all_below_sound 256 (λ b. all_below 8 (λ i. all_below 8 (λ j. p b i j))) b h hb) hi)
      hj

set_law : ℕ → ℕ → ℕ → Bool
set_law b i j = same (has_flag (set_flag b i) j) (i == j || has_flag b j) && ltb (set_flag b i) 256

clear_law : ℕ → ℕ → ℕ → Bool
clear_law b i j =
    same (has_flag (clear_flag b i) j) (not (i == j) && has_flag b j) && ltb (clear_flag b i) 256

set_table : law set_law ≡ true
unfolding law set_law all_below same has_flag set_flag
set_table = refl

clear_table : law clear_law ≡ true
unfolding law clear_law all_below same has_flag clear_flag
clear_table = refl

and_left : (a b : Bool) → (a && b) ≡ true → a ≡ true
and_left a b h = ground arith

and_right : (a b : Bool) → (a && b) ≡ true → b ≡ true
and_right a b h = ground arith

-- Setting a flag of a byte sets that flag and no other.
pub has_flag-set_flag :
    (b i j : ℕ) → b < 256 → i < 8 → j < 8 → has_flag (set_flag b i) j ≡ (i == j || has_flag b j)
unfolding set_law
has_flag-set_flag b i j hb hi hj =
    same→eq _ _ (and_left _ _ (law_sound set_law b i j set_table hb hi hj))

-- Clearing a flag of a byte clears that flag and no other.
pub has_flag-clear_flag :
    (b i j : ℕ)
    → b < 256
    → i < 8
    → j < 8
    → has_flag (clear_flag b i) j ≡ (not (i == j) && has_flag b j)
unfolding clear_law
has_flag-clear_flag b i j hb hi hj =
    same→eq _ _ (and_left _ _ (law_sound clear_law b i j clear_table hb hi hj))

pub set_flag-lt : (b i : ℕ) → b < 256 → i < 8 → set_flag b i < 256
unfolding set_law
set_flag-lt b i hb hi =
    ltb→lt _ _ (and_right _ _ (law_sound set_law b i 0 set_table hb hi (omega arith)))

pub clear_flag-lt : (b i : ℕ) → b < 256 → i < 8 → clear_flag b i < 256
unfolding clear_law
clear_flag-lt b i hb hi =
    ltb→lt _ _ (and_right _ _ (law_sound clear_law b i 0 clear_table hb hi (omega arith)))
