-- ===== src/Console/Hex.antt =====
-- Hexadecimal output, read back.
use nadir_kernel.Base.{
  ℕ, zero, suc, ◌+◌, ◌-◌, ◌*◌, ◌/◌, ◌%◌, ◌^◌, ◌<◌, ◌≡◌, refl, ap, sym, ◌∙◌, List, [], ◌∷◌, ◌&&◌,
  arith, leb, if◌then◌else◌, Option, none, some, length,
}
use mathlib.Core.Path.{subst}
use native.Mathlib.Nat.{pow-suc, div-div-eq-div-mul}
use nadir_kernel.Base.Numerals.{read_number, read_number-cons}
use nadir_kernel.Console.{Console, console_puts, hex_digit, puthex_from, console_puthex64}

-- The value of a hexadecimal digit in capitals.
unfoldable pub digit_value : ℕ → Option ℕ
digit_value c =
    if leb b'0' c && leb c b'9'
    then some (c - b'0')
    else if leb b'A' c && leb c b'F'
    then some (c - b'A' + 10)
    else none

abbrev pub read_hex : ℕ → List ℕ → Option ℕ
read_hex = read_number digit_value 16

digit_value-hex_digit : (d : ℕ) → d < 16 → digit_value (hex_digit d) ≡ some d
unfolding digit_value hex_digit
digit_value-hex_digit d h = ground arith

pow_step : (n : ℕ) → 2 ^ (4 * suc n) ≡ 2 ^ (4 * n) * 16
pow_step n =
    let four : 4 * suc n ≡ suc (suc (suc (suc (4 * n)))) = omega arith in
    rw four (
      omega (
        arith,
        pow-suc 2 (4 * n),
        pow-suc 2 (suc (4 * n)),
        pow-suc 2 (suc (suc (4 * n))),
        pow-suc 2 (suc (suc (suc (4 * n)))),
      ))

div_step : (v n : ℕ) → v / 2 ^ (4 * suc n) ≡ v / 2 ^ (4 * n) / 16
div_step v n = rw (pow_step n) (sym (div-div-eq-div-mul v (2 ^ (4 * n)) 16))

-- The characters that the loop prints in `n` rounds.
unfoldable pub nibbles : ℕ → ℕ → List ℕ
nibbles zero v = []
nibbles (suc n) v = hex_digit (v / 2 ^ (4 * n) % 16) ∷ nibbles n v

length-nibbles : (n v : ℕ) → length (nibbles n v) ≡ n
unfolding nibbles
length-nibbles zero v = refl
length-nibbles (suc n) v = ap suc (length-nibbles n v)

puthex_from-nibbles : (n v : ℕ) (s : Console) → puthex_from n v s ≡ console_puts (nibbles n v) s
unfolding puthex_from nibbles console_puts
puthex_from-nibbles zero v s = refl
puthex_from-nibbles (suc n) v s = puthex_from-nibbles n v _

read_hex-nibbles : (n v : ℕ) → read_hex (v / 2 ^ (4 * n)) (nibbles n v) ≡ some v
unfolding read_number nibbles
read_hex-nibbles zero v = ap some (omega arith)
read_hex-nibbles (suc n) v =
    let q = v / 2 ^ (4 * n) in
    let join : v / 2 ^ (4 * suc n) * 16 + q % 16 ≡ q = omega (arith, div_step v n) in
    read_number-cons digit_value 16 (v / 2 ^ (4 * suc n)) (hex_digit (q % 16)) (q % 16)
      (nibbles n v) (digit_value-hex_digit (q % 16) (omega arith))
    ∙ ap (λ (a : ℕ). read_hex a (nibbles n v)) join
    ∙ read_hex-nibbles n v

-- What is printed for a number: `0x` and 16 digits that read back as the number.
pub record HexText (v : ℕ) (text : List ℕ) : Type 0 where
  pub digits : List ℕ
  pub text_eq : text ≡ b'0' ∷ b'x' ∷ digits
  pub count : length digits ≡ 16
  pub reads : read_hex 0 digits ≡ some v

unfoldable pub hex_text : ℕ → List ℕ
hex_text v = b'0' ∷ b'x' ∷ nibbles 16 v

pub console_puthex64-console_puts :
    (v : ℕ) (s : Console) → console_puthex64 v s ≡ console_puts (hex_text v) s
unfolding console_puthex64 hex_text console_puts
console_puthex64-console_puts v s = puthex_from-nibbles 16 v _

-- `console_puthex64` prints what `console_puts` prints for a text of `0x` and 16 digits in capitals, and
-- read as a hexadecimal number these give back the 64-bit value.
pub console_puthex64-hex_text :
    (v : ℕ) (s : Console)
    → v < 2 ^ 64
    → (console_puthex64 v s ≡ console_puts (hex_text v) s) × HexText v (hex_text v)
unfolding hex_text
console_puthex64-hex_text v s h = (
  console_puthex64-console_puts v s,
  record {
    digits = nibbles 16 v;
    text_eq = refl;
    count = length-nibbles 16 v;
    reads =
        let top : v / 2 ^ (4 * 16) ≡ 0 = omega arith in
        subst (λ (a : ℕ). read_hex a (nibbles 16 v) ≡ some v) top (read_hex-nibbles 16 v);
  },
)
