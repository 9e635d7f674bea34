-- ===== src/Base/Bytes.antt =====
-- Single bytes in a memory of 64-bit words, lowest byte first. The word at `a` is used for `a` divisible
-- by 8.
use Prim.Native.Nat.{ℕ, zero, suc, ◌+◌, ◌*◌, ◌/◌, ◌%◌}
use mathlib.Core.Path.{◌≡◌, refl, ap, ◌∙◌}
use mathlib.Core.Logic.{inl, inr}
use native.Mathlib.Omega.{arith}
use nadir_kernel.Base.Tests.{◌==◌, if◌then◌else◌, Bool-cases, eq_of_beq, beq_of_ne}
use nadir_kernel.Base.Lists.{update}

unfoldable pub byte_of : ℕ → ℕ → ℕ
byte_of w zero = w % 256
byte_of w (suc i) = byte_of (w / 256) i

unfoldable pub replace_byte : ℕ → ℕ → ℕ → ℕ
replace_byte w zero v = w / 256 * 256 + v % 256
replace_byte w (suc i) v = replace_byte (w / 256) i v * 256 + w % 256

pub byte_of-replace_byte :
    (w i v j : ℕ) → byte_of (replace_byte w i v) j ≡ (if i == j then v % 256 else byte_of w j)
unfolding byte_of replace_byte
byte_of-replace_byte w zero v zero = omega arith
byte_of-replace_byte w zero v (suc j) =
    ap (λ x. byte_of x j) (let e : (w / 256 * 256 + v % 256) / 256 ≡ w / 256 = omega arith in e)
    ∙ rw (beq_of_ne zero (suc j) (omega arith)) refl
byte_of-replace_byte w (suc i) v zero = ground arith
byte_of-replace_byte w (suc i) v (suc j) =
    let rest = replace_byte (w / 256) i v in
    let e : (rest * 256 + w % 256) / 256 ≡ rest = omega arith in
    ap (λ x. byte_of x j) e ∙ byte_of-replace_byte (w / 256) i v j ∙ ground arith

abbrev pub word_at : ℕ → ℕ
word_at p = p / 8 * 8

-- `*(uint8_t *)p = v` as the word that it writes
abbrev pub with_byte : (ℕ → ℕ) → ℕ → ℕ → ℕ
with_byte mem p v = replace_byte (mem (word_at p)) (p % 8) v

unfoldable pub put_byte : ℕ → ℕ → (ℕ → ℕ) → ℕ → ℕ
put_byte p v mem = update mem (word_at p) (with_byte mem p v)

-- `*(uint8_t *)p`
unfoldable pub get_byte : ℕ → (ℕ → ℕ) → ℕ
get_byte p mem = byte_of (mem (word_at p)) (p % 8)

-- A byte that is written is read back, and the others are as they were.
pub get_byte-put_byte :
    (p q v : ℕ) (mem : ℕ → ℕ)
    → get_byte p (put_byte q v mem) ≡ (if q == p then v % 256 else get_byte p mem)
unfolding get_byte put_byte
get_byte-put_byte p q v mem = elim (Bool-cases (word_at q == word_at p)) [
  | inr apart ↦ rw (apart, beq_of_ne q p (λ e. absurd (ground (arith, apart, e)))) refl
  | inl near ↦
      let w : word_at q ≡ word_at p = eq_of_beq (word_at q) (word_at p) near in
      rw near (byte_of-replace_byte (mem (word_at q)) (q % 8) v (p % 8) ∙ rw w (ground arith))
]
