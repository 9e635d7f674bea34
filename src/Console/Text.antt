-- ===== src/Console/Text.antt =====
-- Strings and the whole screen.
use nadir_kernel.Base.{
  ℕ, ◌≤◌, ◌<◌, ◌≡◌, refl, ap, sym, ◌∙◌, fun_ext, List, [], ◌∷◌, ◌++◌, arith, ltb, if◌then◌else◌,
  Bool-cases, inl, inr,
}
use nadir_kernel.Console.{
  Cells, Console, blank, console_putchar, console_puts, console_clear, blank_cells,
}
use nadir_kernel.Console.Scroll.{scrolled, blank_cells_inside, blank_cells_outside}
use nadir_kernel.Console.Screen.{
  InBounds, Screen, screen, scroll_up, type_char, Shows, shows, still, hw-Shows,
  console_putchar-type_char,
}

pub console_puts-append :
    (cs ds : List ℕ) (s : Console) → console_puts (cs ++ ds) s ≡ console_puts ds (console_puts cs s)
unfolding console_puts
console_puts-append [] ds s = refl
console_puts-append (c ∷ cs) ds s = console_puts-append cs ds (console_putchar c s)

unfoldable pub type_chars : List ℕ → Screen → Screen
type_chars [] t = t
type_chars (c ∷ cs) t = type_chars cs (type_char c t)

pub type_chars-append :
    (cs ds : List ℕ) (t : Screen) → type_chars (cs ++ ds) t ≡ type_chars ds (type_chars cs t)
unfolding type_chars
type_chars-append [] ds t = refl
type_chars-append (c ∷ cs) ds t = type_chars-append cs ds (type_char c t)

type_char_off :
    (c : ℕ) (t : Screen) (i : ℕ) → t.at < 2000 → 2000 ≤ i → (type_char c t).cells i ≡ t.cells i
unfolding type_char scroll_up scrolled
type_char_off c t i ha hi = ground arith

-- What a string leaves: the screen that its characters give one after the other, the cursor on it, and
-- the words behind the screen as they were.
pub record Printed (cs : List ℕ) (s s' : Console) : Type 0 where
  pub shown : screen s' ≡ type_chars cs (screen s)
  pub bounds : InBounds s'
  pub rest : (i : ℕ) → 2000 ≤ i → s'.vga i ≡ s.vga i

putchar-Printed : (c : ℕ) (s : Console) → InBounds s → Printed (c ∷ []) s (console_putchar c s)
unfolding type_chars
putchar-Printed c s v = elim (console_putchar-type_char c s v) [
  | shows busy after ↦ record {
    shown = after.screen_eq;
    bounds = after.bounds;
    rest = λ i hi.
        ap (λ (t : Screen). t.cells i) after.screen_eq
        ∙ type_char_off c (screen s) i (omega (arith, v.row, v.col)) hi;
  }
  | still idle same none' ↦ rw same (record { shown = sym none'; bounds = v; rest = λ i hi. refl })
]

-- With the cursor on the screen, `console_puts` gives the screen that `type_char` gives character by
-- character, keeps the cursor on it, and writes nothing behind the 2000 cells of the text buffer.
pub console_puts-Printed :
    (cs : List ℕ) (s : Console) → InBounds s → Printed cs s (console_puts cs s)
unfolding console_puts type_chars
console_puts-Printed [] s v = record { shown = refl; bounds = v; rest = λ i hi. refl }
console_puts-Printed (c ∷ cs) s v =
    let one = putchar-Printed c s v in
    let more = console_puts-Printed cs (console_putchar c s) one.bounds in
    record {
      shown = more.shown ∙ ap (type_chars cs) (unfold type_chars in one.shown);
      bounds = more.bounds;
      rest = λ i hi. more.rest i hi ∙ one.rest i hi;
    }

unfoldable pub cleared : Cells → Cells
cleared vga i = if ltb i 2000 then blank else vga i

cleared-blank_cells : (vga : Cells) (i : ℕ) → cleared vga i ≡ blank_cells 2000 0 vga i
unfolding cleared
cleared-blank_cells vga i = elim (Bool-cases (ltb i 2000)) [
  | inl on ↦ rw on (sym (blank_cells_inside 2000 0 vga i (omega arith) (ground arith)))
  | inr off ↦ rw off (sym (blank_cells_outside 2000 0 vga i (ground arith)))
]

-- `console_clear` blanks each of the 2000 cells and no other word, puts the cursor at the start of the
-- screen, and moves the display's cursor there.
pub console_clear-cleared :
    (s : Console) → Shows s.log (record { at = 0; cells = cleared s.vga }) (console_clear s)
unfolding console_clear
console_clear-cleared s = rw (fun_ext (cleared-blank_cells s.vga)) (
    hw-Shows (record s { cursor_row = 0; cursor_col = 0; vga = blank_cells 2000 0 s.vga })
      (record { row = omega arith; col = omega arith }))
