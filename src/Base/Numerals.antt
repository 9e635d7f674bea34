-- ===== src/Base/Numerals.antt =====
-- Reading a number from its digits, the first one first.
use Prim.Native.Nat.{ℕ, ◌+◌, ◌*◌}
use mathlib.Core.Path.{◌≡◌, refl}
use mathlib.Core.Option.{Option, none, some}
use mathlib.Core.List.{List, [], ◌∷◌}

-- `value` gives the value of a digit, and `acc` is what the digits before these read as.
unfoldable pub read_number : (ℕ → Option ℕ) → ℕ → ℕ → List ℕ → Option ℕ
read_number value base acc [] = some acc
read_number value base acc (c ∷ cs) = elim (value c) [
  | none ↦ none
  | some d ↦ read_number value base (acc * base + d) cs
]

pub read_number-cons :
    (value : ℕ → Option ℕ) (base acc c d : ℕ) (cs : List ℕ)
    → value c ≡ some d
    → read_number value base acc (c ∷ cs) ≡ read_number value base (acc * base + d) cs
unfolding read_number
read_number-cons value base acc c d cs e = rw (e, read_number) refl
