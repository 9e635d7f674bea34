-- ===== src/Klog/Decimal.antt =====
-- Decimal output, read back.
use nadir_kernel.Base.{
  ℕ, zero, suc, ◌+◌, ◌-◌, ◌*◌, ◌/◌, ◌%◌, ◌^◌, ◌≤◌, ◌<◌, ◌≡◌, ◌≢◌, refl, ap, ◌∙◌, List, [], ◌∷◌,
  ◌&&◌, arith, leb, ◌==◌, if◌then◌else◌, Option, none, some, length, Bool-cases, inl, inr,
  beq_of_ne, eq_of_beq,
}
use native.Mathlib.Nat.{pow-suc}
use nadir_kernel.Base.Numerals.{read_number, read_number-cons}
use nadir_kernel.Console.{Console, console_putchar, console_puts}
use nadir_kernel.Klog.{push_digits, print_back, seconds_digits, klog_dec}

unfoldable pub decimal_value : ℕ → Option ℕ
decimal_value c = if leb b'0' c && leb c b'9' then some (c - b'0') else none

abbrev pub read_decimal : ℕ → List ℕ → Option ℕ
read_decimal = read_number decimal_value 10

decimal_value_lem : (d : ℕ) → d < 10 → decimal_value (b'0' + d) ≡ some d
unfolding decimal_value
decimal_value_lem d h = ground arith

push_digits-zero : (n : ℕ) (buf : List ℕ) → push_digits n 0 buf ≡ buf
unfolding push_digits
push_digits-zero zero buf = refl
push_digits-zero (suc n) buf = refl

push_digits-suc :
    (n v : ℕ) (buf : List ℕ)
    → v ≢ 0
    → push_digits (suc n) v buf ≡ push_digits n (v / 10) ((b'0' + v % 10) ∷ buf)
unfolding push_digits
push_digits-suc n v buf h = rw (beq_of_ne v 0 h)

read_decimal-push_digits :
    (n v : ℕ) (buf : List ℕ)
    → v < 10 ^ n
    → read_decimal 0 (push_digits n v buf) ≡ read_decimal v buf
read_decimal-push_digits zero v buf h =
    let none' : v ≡ 0 = omega arith in rw (none', push_digits-zero 0 buf) refl
read_decimal-push_digits (suc n) v buf h = elim (Bool-cases (v == 0)) [
  | inl e ↦ rw (eq_of_beq v 0 e, push_digits-zero (suc n) buf) refl
  | inr e ↦
      let join : v / 10 * 10 + v % 10 ≡ v = omega arith in
      ap (read_decimal 0) (push_digits-suc n v buf (ground arith))
      ∙ read_decimal-push_digits n (v / 10) _ (omega (arith, pow-suc 10 n))
      ∙ read_number-cons decimal_value 10 (v / 10) (b'0' + v % 10) (v % 10) buf
          (decimal_value_lem (v % 10) (omega arith))
      ∙ ap (λ (a : ℕ). read_decimal a buf) join
]

length-push_digits : (n v : ℕ) (buf : List ℕ) → length (push_digits n v buf) ≤ n + length buf
length-push_digits zero v buf = unfold push_digits in omega arith
length-push_digits (suc n) v buf = elim (Bool-cases (v == 0)) [
  | inl e ↦ rw (eq_of_beq v 0 e, push_digits-zero (suc n) buf) (omega arith)
  | inr e ↦
      rw (push_digits-suc n v buf (ground arith))
        (omega (arith, length-push_digits n (v / 10) ((b'0' + v % 10) ∷ buf)))
]

-- The first character of a text, 0 for an empty one.
unfoldable pub leading : List ℕ → ℕ
leading [] = 0
leading (c ∷ cs) = c

leading-push_digits :
    (n v : ℕ) (buf : List ℕ) → v ≢ 0 → v < 10 ^ n → b'0' < leading (push_digits n v buf)
leading-push_digits zero v buf h small = let none' : v ≡ 0 = omega arith in elim (h none') [ ]
leading-push_digits (suc n) v buf h small = elim (Bool-cases (v / 10 == 0)) [
  | inl e ↦
      rw (push_digits-suc n v buf h, eq_of_beq (v / 10) 0 e, push_digits-zero n _)
        (unfold leading in ground arith)
  | inr e ↦
      rw (push_digits-suc n v buf h)
        (leading-push_digits n (v / 10) _ (ground arith) (omega (arith, pow-suc 10 n)))
]

-- A decimal numeral of `v`: it reads as `v`, has 1 to 20 digits, and begins with 0 only if `v` is 0.
pub record Numeral (v : ℕ) (text : List ℕ) : Type 0 where
  pub reads : read_decimal 0 text ≡ some v
  pub short : length text ≤ 20
  pub some_digit : 0 < length text
  pub leads : v ≢ 0 → b'0' < leading text

nonempty : (text : List ℕ) → 0 < leading text → 0 < length text
unfolding leading
nonempty [] h = elim h [ ]
nonempty (c ∷ cs) h = omega arith

pub seconds_digits-Numeral : (v : ℕ) → v < 10 ^ 20 → Numeral v (seconds_digits v)
unfolding seconds_digits
seconds_digits-Numeral v small = elim (Bool-cases (v == 0)) [
  | inl e ↦
      rw (e, eq_of_beq v 0 e)
        (record {
          reads =
              read_number-cons decimal_value 10 0 b'0' 0 [] (decimal_value_lem 0 (omega arith))
              ∙ (unfold read_number in refl);
          short = omega arith;
          some_digit = omega arith;
          leads = λ no. elim (no refl) [ ];
        })
  | inr e ↦
      let lead = leading-push_digits 20 v [] (ground arith) small in
      rw e (record {
        reads = read_decimal-push_digits 20 v [] small ∙ (unfold read_number in refl);
        short = omega (arith, length-push_digits 20 v []);
        some_digit = nonempty (push_digits 20 v []) (omega arith);
        leads = λ no. lead;
      })
]

pub print_back-console_puts : (buf : List ℕ) (s : Console) → print_back buf s ≡ console_puts buf s
unfolding print_back console_puts
print_back-console_puts [] s = refl
print_back-console_puts (c ∷ buf) s = print_back-console_puts buf (console_putchar c s)

pub klog_dec-console_puts : (v : ℕ) (s : Console) → klog_dec v s ≡ console_puts (seconds_digits v) s
unfolding klog_dec seconds_digits console_puts
klog_dec-console_puts v s = elim (Bool-cases (v == 0)) [
  | inl e ↦ rw e
  | inr e ↦ rw e (print_back-console_puts (push_digits 20 v []) s)
]

-- `klog_dec` prints a decimal numeral of the 64-bit value, without leading zeros: its buffer of 20
-- digits is large enough.
pub klog_dec-Numeral :
    (v : ℕ) (s : Console)
    → v < 2 ^ 64
    → (klog_dec v s ≡ console_puts (seconds_digits v) s) × Numeral v (seconds_digits v)
klog_dec-Numeral v s small = (klog_dec-console_puts v s, seconds_digits-Numeral v (omega arith))
