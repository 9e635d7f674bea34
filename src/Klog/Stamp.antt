-- ===== src/Klog/Stamp.antt =====
-- The time stamp of a log line, and the line as one string.
use nadir_kernel.Base.{
  ℕ, zero, suc, ◌+◌, ◌-◌, ◌*◌, ◌/◌, ◌%◌, ◌^◌, ◌≤◌, ◌<◌, ◌≡◌, refl, ap, Bool, true, false, ◌&&◌,
  List, [], ◌∷◌, ◌++◌, arith, ltb, ◌==◌, if◌then◌else◌, Option, none, some, length, length-append,
  Bool-cases, inl, inr, eq_of_beq,
}
use nadir_kernel.Base.Bits.{all_below, all_below_sound}
use nadir_kernel.Base.Numerals.{read_number}
use nadir_kernel.Console.{Console, console_putchar, console_puts}
use nadir_kernel.Console.Text.{console_puts-append}
use nadir_kernel.Klog.{
  seconds_digits, pad, print_fraction, klog_prefix, klog_begin, klog_str, klog_end, klog,
}
use nadir_kernel.Klog.Decimal.{
  decimal_value, read_decimal, Numeral, seconds_digits-Numeral, print_back-console_puts,
}

unfoldable pub spaces : ℕ → List ℕ
spaces zero = []
spaces (suc n) = 32 ∷ spaces n

length-spaces : (n : ℕ) → length (spaces n) ≡ n
unfolding spaces
length-spaces zero = refl
length-spaces (suc n) = ap suc (length-spaces n)

pad-spaces :
    (n len : ℕ) (s : Console) → 12 ≤ len + n → pad n len s ≡ console_puts (spaces (12 - len)) s
unfolding pad spaces console_puts
pad-spaces zero len s h = let none' : 12 - len ≡ 0 = omega arith in rw none' refl
pad-spaces (suc n) len s h = elim (Bool-cases (ltb len 12)) [
  | inl short ↦
      let more : 12 - len ≡ suc (12 - (len + 1)) = ground arith in
      rw (short, more) (pad-spaces n (len + 1) (console_putchar 32 s) (omega arith))
  | inr wide ↦ let none' : 12 - len ≡ 0 = ground arith in rw (wide, none') refl
]

-- The characters of the fraction that the loop prints in `n` rounds.
unfoldable pub fraction : ℕ → ℕ → ℕ → List ℕ
fraction zero div frac = []
fraction (suc n) div frac =
    let rest = (b'0' + frac / div % 10) ∷ fraction n (div / 10) frac in
    if div == 0 then [] else rest

print_fraction-fraction :
    (n div frac : ℕ) (s : Console)
    → print_fraction n div frac s ≡ console_puts (fraction n div frac) s
unfolding print_fraction fraction console_puts
print_fraction-fraction zero div frac s = refl
print_fraction-fraction (suc n) div frac s = elim (Bool-cases (div == 0)) [
  | inl e ↦ rw e
  | inr e ↦ rw e (print_fraction-fraction n (div / 10) frac _)
]

reads_as : Option ℕ → ℕ → Bool
reads_as none n = false
reads_as (some m) n = m == n

reads_as-some : (o : Option ℕ) (n : ℕ) → reads_as o n ≡ true → o ≡ some n
unfolding reads_as
reads_as-some none n h = ground arith
reads_as-some (some m) n h = ap some (eq_of_beq m n h)

fraction_table :
    all_below 100 (λ k.
      reads_as (read_decimal 0 (fraction 7 100000 (k * 10000))) (k * 10000)
      && (length (fraction 7 100000 (k * 10000)) == 6))
    ≡ true
unfolding all_below fraction reads_as read_number decimal_value
fraction_table = refl

both : (a b : Bool) → (a && b) ≡ true → (a ≡ true) × (b ≡ true)
both a b h = (ground arith, ground arith)

fraction_digits :
    (k : ℕ)
    → k < 100
    → (read_decimal 0 (fraction 7 100000 (k * 10000)) ≡ some (k * 10000))
      × (length (fraction 7 100000 (k * 10000)) ≡ 6)
fraction_digits k h =
    let (reads, count) = both _ _ (all_below_sound 100 _ k fraction_table h) in
    (reads_as-some _ (k * 10000) reads, eq_of_beq _ 6 count)

-- The time field of a line at a tick count: spaces, the seconds, a point and six digits for the
-- microseconds, at least 12 characters in all.
pub record TimeField (ticks : ℕ) (text : List ℕ) : Type 0 where
  pub blanks : ℕ
  pub whole : List ℕ
  pub micros : List ℕ
  pub text_eq : text ≡ spaces blanks ++ whole ++ (46 ∷ []) ++ micros
  pub seconds : Numeral (ticks / 100) whole
  pub micros_reads : read_decimal 0 micros ≡ some (ticks % 100 * 10000)
  pub micros_count : length micros ≡ 6
  pub wide : 12 ≤ length text
  pub tight : 0 < blanks → length text ≡ 12

unfoldable pub time_field : ℕ → List ℕ
time_field ticks =
    spaces (12 - (length (seconds_digits (ticks / 100)) + 7))
    ++ seconds_digits (ticks / 100)
    ++ (46 ∷ [])
    ++ fraction 7 100000 (ticks % 100 * 10000)

-- A log line up to its message.
unfoldable pub line_start : ℕ → List ℕ → List ℕ
line_start ticks subsystem =
    (91 ∷ []) ++ time_field ticks ++ (93 ∷ 32 ∷ []) ++ subsystem ++ (58 ∷ 32 ∷ [])

time_field-TimeField : (ticks : ℕ) → ticks < 2 ^ 64 → TimeField ticks (time_field ticks)
unfolding time_field
time_field-TimeField ticks small =
    let whole = seconds_digits (ticks / 100) in
    let micros = fraction 7 100000 (ticks % 100 * 10000) in
    let (reads, count) = fraction_digits (ticks % 100) (omega arith) in
    let blanks = 12 - (length whole + 7) in
    let size : length (spaces blanks ++ whole ++ (46 ∷ []) ++ micros)
        ≡ blanks + (length whole + 7) =
      omega (
        arith,
        length-append (spaces blanks ++ whole ++ (46 ∷ [])) micros,
        length-append (spaces blanks ++ whole) (46 ∷ []),
        length-append (spaces blanks) whole,
        length-spaces blanks,
        count,
      ) in
    record {
      blanks = blanks;
      whole = whole;
      micros = micros;
      text_eq = refl;
      seconds = seconds_digits-Numeral (ticks / 100) (omega arith);
      micros_reads = reads;
      micros_count = count;
      wide = omega (arith, size);
      tight = λ h. omega (arith, size, h);
    }

pub klog_prefix-line_start :
    (ticks : ℕ) (subsystem : List ℕ) (s : Console)
    → klog_prefix ticks subsystem s ≡ console_puts (line_start ticks subsystem) s
unfolding klog_prefix line_start time_field console_puts
klog_prefix-line_start ticks subsystem s =
    let whole = seconds_digits (ticks / 100) in
    let frac = ticks % 100 * 10000 in
    simp
      (
        console_puts-append,
        print_back-console_puts,
        print_fraction-fraction,
        pad-spaces 12 (length whole + 7) (console_putchar 91 s) (omega arith),
      )
      refl

pub klog-console_puts :
    (ticks : ℕ) (subsystem msg : List ℕ) (s : Console)
    → klog ticks subsystem msg s ≡ console_puts (line_start ticks subsystem ++ msg ++ (10 ∷ [])) s
unfolding klog klog_begin klog_str klog_end console_puts
klog-console_puts ticks subsystem msg s = simp (klog_prefix-line_start, console_puts-append) refl

-- `klog` prints one line: the time in brackets, the subsystem, the message and a newline. The time reads
-- as the ticks in seconds and microseconds, with six digits for the latter and padded to 12 characters.
pub klog-line :
    (ticks : ℕ) (subsystem msg : List ℕ) (s : Console)
    → ticks < 2 ^ 64
    → (klog ticks subsystem msg s ≡ console_puts (line_start ticks subsystem ++ msg ++ (10 ∷ [])) s)
      × TimeField ticks (time_field ticks)
klog-line ticks subsystem msg s small =
    (klog-console_puts ticks subsystem msg s, time_field-TimeField ticks small)
