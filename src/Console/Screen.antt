-- ===== src/Console/Screen.antt =====
-- `console_putchar` against a screen of 2000 cells with one position.
use nadir_kernel.Base.{
  ℕ, ◌+◌, ◌-◌, ◌*◌, ◌/◌, ◌%◌, ◌^◌, ◌≤◌, ◌<◌, ◌≡◌, refl, sym, fun_ext, Bool, true, false, ◌∷◌, arith,
  ltb, leb, ◌==◌, ◌&&◌, if◌then◌else◌, update, lt→ltb, le→ltb, le→leb, lt→leb, Bool-cases, inl, inr,
  beq_of_ne, eq_of_beq,
}
use mathlib.Core.Path.{subst}
use nadir_kernel.Io.{Log, put, outb}
use nadir_kernel.Console.{
  Cells, Console, cell, blank, update_hw_cursor, scroll, settle, put_cell, advance, console_putchar,
}
use nadir_kernel.Console.Scroll.{scrolled, scroll-scrolled}

-- The cursor lies on the screen.
pub record InBounds (s : Console) : Type 0 where
  pub row : s.cursor_row < 25
  pub col : s.cursor_col < 80

pub record Screen : Type 0 where
  pub at : ℕ
  pub cells : Cells

abbrev pub screen : Console → Screen
screen s = record { at = s.cursor_row * 80 + s.cursor_col; cells = s.vga }

-- A position past the end moves everything up by a row.
unfoldable pub scroll_up : Screen → Screen
scroll_up t = if ltb t.at 2000 then t else record { at = t.at - 80; cells = scrolled t.cells }

-- What a character does on the screen: a newline goes to the start of the next row, a backspace
-- blanks the cell before the position, any other character is shown at the position.
unfoldable pub type_char : ℕ → Screen → Screen
type_char c t =
    if c == 10
    then scroll_up (record t { at = (t.at / 80 + 1) * 80 })
    else if c == 8
    then (if t.at == 0
        then t
        else record { at = t.at - 1; cells = update t.cells (t.at - 1) blank })
    else scroll_up (record { at = t.at + 1; cells = update t.cells t.at (cell c) })

-- The four writes that move the cursor of the display, newest first.
unfoldable pub show_cursor : ℕ → Log → Log
show_cursor at log = put 0x3d5 (at / 256) ∷ put 0x3d4 14 ∷ put 0x3d5 (at % 256) ∷ put 0x3d4 15 ∷ log

-- The display shows the cursor where the driver has it, after `log` was written.
pub record Shows (log : Log) (t : Screen) (s : Console) : Type 0 where
  pub screen_eq : screen s ≡ t
  pub bounds : InBounds s
  pub log_eq : s.log ≡ show_cursor t.at log

hw_cursor :
    (s : Console)
    → InBounds s
    → (update_hw_cursor s).log ≡ show_cursor (s.cursor_row * 80 + s.cursor_col) s.log
unfolding update_hw_cursor outb show_cursor
hw_cursor s v =
    let pos = s.cursor_row * 80 + s.cursor_col in
    let small : pos % 2 ^ 16 ≡ pos = omega (arith, v.row, v.col) in
    let high : pos / 256 % 256 % 256 ≡ pos / 256 = omega (arith, v.row, v.col) in
    let low : pos % 256 % 256 ≡ pos % 256 = omega arith in rw (small, high, low) refl

pub hw-Shows : (s : Console) → InBounds s → Shows s.log (screen s) (update_hw_cursor s)
unfolding update_hw_cursor
hw-Shows s v = record {
  screen_eq = refl;
  bounds = record { row = v.row; col = v.col };
  log_eq = unfold update_hw_cursor in hw_cursor s v;
}

settle_low : (s : Console) → InBounds s → Shows s.log (scroll_up (screen s)) (settle s)
unfolding settle scroll_up
settle_low s v =
    rw
      (
        lt→ltb (s.cursor_row * 80 + s.cursor_col) 2000 (omega (arith, v.row, v.col)),
        lt→leb 25 s.cursor_row v.row,
      )
      (hw-Shows s v)

settle_past :
    (s : Console)
    → s.cursor_row ≡ 25
    → s.cursor_col < 80
    → Shows s.log (scroll_up (screen s)) (settle s)
unfolding settle scroll_up
settle_past s hr hc =
    let moved = record s { vga = scroll s.vga; cursor_row = 24 } in
    let at_eq : s.cursor_row * 80 + s.cursor_col - 80 ≡ 24 * 80 + s.cursor_col = omega arith in
    rw
      (
        le→ltb (s.cursor_row * 80 + s.cursor_col) 2000 (omega arith),
        le→leb 25 s.cursor_row (omega arith),
        at_eq,
        sym (fun_ext (scroll-scrolled s.vga)),
      )
      (hw-Shows moved (record { row = omega arith; col = hc }))

settle-scroll_up :
    (s : Console)
    → s.cursor_row ≤ 25
    → s.cursor_col < 80
    → Shows s.log (scroll_up (screen s)) (settle s)
settle-scroll_up s hr hc = elim (Bool-cases (ltb s.cursor_row 25)) [
  | inl low ↦ settle_low s (record { row = ground arith; col = hc })
  | inr past ↦ settle_past s (ground arith) hc
]

-- The same for a screen that is given by a position and cells.
settle_at :
    (s : Console) (at : ℕ)
    → at ≡ s.cursor_row * 80 + s.cursor_col
    → s.cursor_row ≤ 25
    → s.cursor_col < 80
    → Shows s.log (scroll_up (record { at = at; cells = s.vga })) (settle s)
settle_at s at e hr hc =
    subst (λ (p : ℕ). Shows s.log (scroll_up (record { at = p; cells = s.vga })) (settle s)) (sym e)
      (settle-scroll_up s hr hc)

back_at :
    (s : Console) (at : ℕ)
    → at ≡ s.cursor_row * 80 + s.cursor_col
    → InBounds s
    → Shows s.log (record { at = at; cells = update s.vga at blank }) (settle (put_cell blank s))
unfolding settle put_cell
back_at s at e v =
    let moved = record s { vga = update s.vga (s.cursor_row * 80 + s.cursor_col) blank } in
    rw (e, lt→leb 25 s.cursor_row v.row) (hw-Shows moved (record { row = v.row; col = v.col }))

newline : (s : Console) → InBounds s → Shows s.log (type_char 10 (screen s)) (console_putchar 10 s)
unfolding type_char console_putchar
newline s v =
    settle_at (record s { cursor_row = (s.cursor_row + 1) % 256; cursor_col = 0 })
      (((s.cursor_row * 80 + s.cursor_col) / 80 + 1) * 80) (omega (arith, v.row, v.col))
      (omega (arith, v.row)) (omega arith)

other :
    (c : ℕ) (s : Console)
    → InBounds s
    → (c == 10) ≡ false
    → (c == 8) ≡ false
    → Shows s.log (type_char c (screen s)) (console_putchar c s)
unfolding type_char console_putchar put_cell advance
other c s v h10 h8 =
    let pos = s.cursor_row * 80 + s.cursor_col in
    let vga' = update s.vga pos (cell c) in
    rw (h10, h8)
      (elim (Bool-cases (leb 80 ((s.cursor_col + 1) % 256))) [
        | inl wraps ↦ rw wraps (
            settle_at
              (record s { cursor_col = 0; cursor_row = (s.cursor_row + 1) % 256; vga = vga' })
              (pos + 1) (ground (arith, v.row, v.col)) (omega (arith, v.row)) (omega arith))
        | inr stays ↦ rw stays (
            settle_at (record s { cursor_col = (s.cursor_col + 1) % 256; vga = vga' }) (pos + 1)
              (ground (arith, v.row, v.col)) (omega (arith, v.row)) (ground arith))
      ])

backspace :
    (s : Console)
    → InBounds s
    → 0 < s.cursor_row * 80 + s.cursor_col
    → Shows s.log (type_char 8 (screen s)) (console_putchar 8 s)
unfolding type_char console_putchar
backspace s v h =
    let pos = s.cursor_row * 80 + s.cursor_col in
    rw (beq_of_ne pos 0 (omega arith)) (elim (Bool-cases (ltb 0 s.cursor_col)) [
      | inl within ↦ rw within (
          back_at (record s { cursor_col = s.cursor_col - 1 }) (pos - 1) (ground arith)
            (record { row = v.row; col = omega (arith, v.col) }))
      | inr above ↦
          rw (above, lt→ltb 0 s.cursor_row (ground arith))
            (back_at (record s { cursor_row = s.cursor_row - 1; cursor_col = 79 }) (pos - 1)
              (ground arith) (record { row = omega (arith, v.row); col = omega arith }))
    ])

-- The one character that does nothing: a backspace at the start of the screen.
abbrev pub is_idle : ℕ → Console → Bool
is_idle c s = c == 8 && (s.cursor_row * 80 + s.cursor_col == 0)

idle :
    (c : ℕ) (s : Console)
    → is_idle c s ≡ true
    → (console_putchar c s ≡ s) × (type_char c (screen s) ≡ screen s)
unfolding console_putchar type_char
idle c s h = (ground arith, ground arith)

busy :
    (c : ℕ) (s : Console)
    → InBounds s
    → is_idle c s ≡ false
    → Shows s.log (type_char c (screen s)) (console_putchar c s)
busy c s v h = elim (Bool-cases (c == 10)) [
  | inl line ↦ rw (eq_of_beq c 10 line) (newline s v)
  | inr plain ↦ elim (Bool-cases (c == 8)) [
    | inl back ↦ rw (eq_of_beq c 8 back) (backspace s v (ground arith))
    | inr shown ↦ other c s v plain shown
  ]
]

-- What `console_putchar` leaves.
pub data Typed (c : ℕ) (s : Console) : Type 0 where
  shows :
      is_idle c s ≡ false → Shows s.log (type_char c (screen s)) (console_putchar c s) → Typed c s
  still :
      is_idle c s ≡ true → console_putchar c s ≡ s → type_char c (screen s) ≡ screen s → Typed c s

-- With the cursor on the screen, `console_putchar` does what `type_char` says for the one position and
-- the cells, a newline, a wrap or a scroll included, keeps the cursor on the screen and moves the
-- display's cursor to it; only a backspace at the start of the screen changes nothing.
pub console_putchar-type_char : (c : ℕ) (s : Console) → InBounds s → Typed c s
console_putchar-type_char c s v = elim (Bool-cases (is_idle c s)) [
  | inl none' ↦ let (same, should) = idle c s none' in still none' same should
  | inr some' ↦ shows some' (busy c s v some')
]
