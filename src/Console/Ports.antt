-- ===== src/Console/Ports.antt =====
-- The console writes to the two ports of the display controller only.
use nadir_kernel.Base.{
  ℕ, ◌+◌, ◌%◌, ◌≡◌, refl, Bool, ◌||◌, List, [], ◌∷◌, ltb, leb, ◌==◌, Bool-cases, inl, inr,
}
use mathlib.Core.Path.{subst}
use nadir_kernel.Io.{Log, outb}
use nadir_kernel.Io.Writes.{Extends, same, write, Extends-trans}
use nadir_kernel.Console.{
  Console, update_hw_cursor, settle, put_cell, advance, console_putchar, console_puts,
  console_clear, cell,
}

unfoldable pub is_crt : ℕ → Bool
is_crt p = p == 0x3d4 || p == 0x3d5

hw_cursor-Extends : (s : Console) → Extends is_crt s.log (update_hw_cursor s).log
unfolding update_hw_cursor outb is_crt
hw_cursor-Extends s = write _ _ refl (write _ _ refl (write _ _ refl (write _ _ refl same)))

settle-Extends : (s : Console) → Extends is_crt s.log (settle s).log
unfolding settle
settle-Extends s = elim (Bool-cases (leb 25 s.cursor_row)) [
  | inl past ↦ rw past (hw_cursor-Extends _)
  | inr low ↦ rw low (hw_cursor-Extends s)
]

advance-log : (s : Console) → (advance s).log ≡ s.log
unfolding advance
advance-log s = elim (Bool-cases (leb 80 ((s.cursor_col + 1) % 256))) [
  | inl wraps ↦ rw wraps
  | inr stays ↦ rw stays
]

pub console_putchar-Extends : (c : ℕ) (s : Console) → Extends is_crt s.log (console_putchar c s).log
unfolding console_putchar put_cell
console_putchar-Extends c s = elim (Bool-cases (c == 10)) [
  | inl line ↦ rw line (settle-Extends _)
  | inr no_line ↦ rw no_line (elim (Bool-cases (c == 8)) [
    | inl back ↦ rw back (elim (Bool-cases (ltb 0 s.cursor_col)) [
      | inl within ↦ rw within (settle-Extends _)
      | inr edge ↦ rw edge (elim (Bool-cases (ltb 0 s.cursor_row)) [
        | inl above ↦ rw above (settle-Extends _)
        | inr corner ↦ rw corner same
      ])
    ])
    | inr shown ↦ rw shown (
        subst (λ (l : Log). Extends is_crt l (settle (advance (put_cell (cell c) s))).log)
          (advance-log (put_cell (cell c) s)) (settle-Extends (advance (put_cell (cell c) s))))
  ])
]

pub console_puts-Extends :
    (cs : List ℕ) (s : Console) → Extends is_crt s.log (console_puts cs s).log
unfolding console_puts
console_puts-Extends [] s = same
console_puts-Extends (c ∷ cs) s =
    Extends-trans (console_putchar-Extends c s) (console_puts-Extends cs (console_putchar c s))

pub console_clear-Extends : (s : Console) → Extends is_crt s.log (console_clear s).log
unfolding console_clear
console_clear-Extends s = hw_cursor-Extends _
