-- ===== src/Fault/Report.antt =====
-- What the report of an exception says.
use nadir_kernel.Base.{
  ℕ, ◌^◌, ◌<◌, ◌≡◌, refl, ◌∙◌, sym, Bool, true, false, not, ◌&&◌, ◌||◌, List, [], ◌∷◌, ◌++◌, arith,
  ltb, ◌==◌, codes, Bool-cases, inl, inr,
}
use nadir_kernel.Base.Bits.{all_below, all_below_sound}
use nadir_kernel.Console.{Console, console_puts}
use nadir_kernel.Console.Text.{console_puts-append}
use nadir_kernel.Console.Hex.{
  HexText, hex_text, console_puthex64-console_puts, console_puthex64-hex_text,
}
use nadir_kernel.Fault.{InterruptFrame, nth, exception_name, exception_handler}

-- The registers of a frame are 64-bit words.
pub record IsFrame (f : InterruptFrame) : Type 0 where
  pub vector : f.vector < 2 ^ 64
  pub error : f.error < 2 ^ 64
  pub rip : f.rip < 2 ^ 64
  pub cs : f.cs < 2 ^ 64
  pub rflags : f.rflags < 2 ^ 64

unfoldable pub report : InterruptFrame → List ℕ
report f =
    codes "\n*** EXCEPTION: "
    ++ exception_name f.vector
    ++ codes " (vector "
    ++ hex_text f.vector
    ++ codes ") ***\nerror: "
    ++ hex_text f.error
    ++ codes " rip: "
    ++ hex_text f.rip
    ++ codes " cs: "
    ++ hex_text f.cs
    ++ codes " rflags: "
    ++ hex_text f.rflags
    ++ codes "\nSystem halted.\n"

same_text : List ℕ → List ℕ → Bool
same_text [] [] = true
same_text (a ∷ xs) (b ∷ ys) = a == b && same_text xs ys
same_text xs ys = false

same_text_refl : (xs : List ℕ) → same_text xs xs ≡ true
unfolding same_text
same_text_refl [] = refl
same_text_refl (x ∷ xs) = ground (arith, same_text_refl xs)

differ_table :
    all_below 33
      (λ i. all_below 33 (λ j. i == j || not (same_text (exception_name i) (exception_name j))))
    ≡ true
unfolding all_below same_text exception_name nth
differ_table = refl

exception_name-injective : (i j : ℕ) → i < 33 → j < 33 → exception_name i ≡ exception_name j → i ≡ j
exception_name-injective i j hi hj e =
    let row =
      all_below_sound 33 _ j
        (all_below_sound 33
          (λ a. all_below 33 (λ b. a == b || not (same_text (exception_name a) (exception_name b))))
          i differ_table hi)
        hj in
    let same : same_text (exception_name i) (exception_name j) ≡ true =
      rw e (same_text_refl (exception_name j)) in
    ground (arith, row, same)

-- The name of a vector below 32 is that of no other vector.
names_vector : (i j : ℕ) → j < 32 → exception_name i ≡ exception_name j → i ≡ j
names_vector i j h e = elim (Bool-cases (ltb i 32)) [
  | inl low ↦ exception_name-injective i j (ground arith) (omega arith) e
  | inr high ↦
      let unknown : exception_name i ≡ exception_name 32 = (unfold exception_name in rw high) in
      let clash : 32 ≡ j =
        exception_name-injective 32 j (omega arith) (omega arith) (sym unknown ∙ e) in
      absurd (omega (arith, clash, h))
]

-- What the report tells: each 64-bit value can be read back, and the name of a vector below 32 is that
-- of no other vector.
pub record Tells (f : InterruptFrame) : Type 0 where
  pub vector : HexText f.vector (hex_text f.vector)
  pub error : HexText f.error (hex_text f.error)
  pub rip : HexText f.rip (hex_text f.rip)
  pub cs : HexText f.cs (hex_text f.cs)
  pub rflags : HexText f.rflags (hex_text f.rflags)
  pub names : (v : ℕ) → v < 32 → exception_name f.vector ≡ exception_name v → f.vector ≡ v

-- `exception_handler` prints one report: the exception's name, which for a vector below 32 is that of no
-- other vector, and vector, error code, rip, cs and rflags as hexadecimal numbers that read back as the
-- values in the frame.
pub exception_handler-report :
    (f : InterruptFrame) (s : Console)
    → IsFrame f
    → (exception_handler f s ≡ console_puts (report f) s) × Tells f
exception_handler-report f s v =
    let vector = console_puthex64-hex_text f.vector s v.vector in
    let error = console_puthex64-hex_text f.error s v.error in
    let rip = console_puthex64-hex_text f.rip s v.rip in
    let cs = console_puthex64-hex_text f.cs s v.cs in
    let rflags = console_puthex64-hex_text f.rflags s v.rflags in
    (
      (unfold exception_handler report in
          simp (console_puts-append, console_puthex64-console_puts) refl),
      record {
        vector = vector.1;
        error = error.1;
        rip = rip.1;
        cs = cs.1;
        rflags = rflags.1;
        names = λ w h e. names_vector f.vector w h e;
      },
    )
