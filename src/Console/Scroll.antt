-- ===== src/Console/Scroll.antt =====
-- The loops of `scroll` and `console_clear`, cell by cell.
use nadir_kernel.Base.{
  ℕ, zero, suc, ◌+◌, ◌-◌, ◌*◌, ◌≤◌, ◌<◌, ◌≡◌, refl, ◌∙◌, ◌⊎◌, arith, ltb, ◌==◌, if◌then◌else◌,
  Bool-cases, inl, inr, beq_of_ne,
}
use nadir_kernel.Console.{Cells, blank, copy_cells, copy_rows, blank_cells, scroll}

-- A row is copied from `col` on into the row above it.
copy_cells_outside :
    (n row col : ℕ) (vga : Cells) (i : ℕ)
    → (i < (row - 1) * 80 + col) ⊎ ((row - 1) * 80 + col + n ≤ i)
    → copy_cells n row col vga i ≡ vga i
unfolding copy_cells
copy_cells_outside zero row col vga i h = refl
copy_cells_outside (suc n) row col vga i h =
    copy_cells_outside n row (col + 1) _ i (omega arith)
    ∙ rw (beq_of_ne ((row - 1) * 80 + col) i (omega arith))

copy_cells_inside :
    (n row col : ℕ) (vga : Cells) (i : ℕ)
    → 1 ≤ row
    → col + n ≤ 80
    → (row - 1) * 80 + col ≤ i
    → i < (row - 1) * 80 + col + n
    → copy_cells n row col vga i ≡ vga (i + 80)
unfolding copy_cells
copy_cells_inside zero row col vga i hr hc lo hi = let no : i < i = omega arith in omega arith
copy_cells_inside (suc n) row col vga i hr hc lo hi =
    elim (Bool-cases ((row - 1) * 80 + col == i)) [
      | inl e ↦
          copy_cells_outside n row (col + 1) _ i (ground arith)
          ∙ (let source : row * 80 + col ≡ i + 80 = ground arith in rw (e, source) refl)
      | inr e ↦
          copy_cells_inside n row (col + 1) _ i hr (omega arith) (ground arith) (omega arith)
          ∙ rw (beq_of_ne ((row - 1) * 80 + col) (i + 80) (omega arith))
    ]

copy_rows_outside :
    (n row : ℕ) (vga : Cells) (i : ℕ)
    → 1 ≤ row
    → (i < (row - 1) * 80) ⊎ ((row - 1 + n) * 80 ≤ i)
    → copy_rows n row vga i ≡ vga i
unfolding copy_rows
copy_rows_outside zero row vga i hr h = refl
copy_rows_outside (suc n) row vga i hr h =
    copy_rows_outside n (row + 1) _ i (omega arith) (omega arith)
    ∙ copy_cells_outside 80 row 0 vga i (omega arith)

copy_rows_inside :
    (n row : ℕ) (vga : Cells) (i : ℕ)
    → 1 ≤ row
    → (row - 1) * 80 ≤ i
    → i < (row - 1 + n) * 80
    → copy_rows n row vga i ≡ vga (i + 80)
unfolding copy_rows
copy_rows_inside zero row vga i hr lo hi = let no : i < i = omega arith in omega arith
copy_rows_inside (suc n) row vga i hr lo hi = elim (Bool-cases (ltb i (row * 80))) [
  | inl near ↦
      copy_rows_outside n (row + 1) _ i (omega arith) (ground arith)
      ∙ copy_cells_inside 80 row 0 vga i hr (omega arith) (omega arith) (ground arith)
  | inr far ↦
      copy_rows_inside n (row + 1) _ i (omega arith) (ground arith) (omega arith)
      ∙ copy_cells_outside 80 row 0 vga (i + 80) (ground arith)
]

pub blank_cells_outside :
    (n a : ℕ) (vga : Cells) (i : ℕ) → (i < a) ⊎ (a + n ≤ i) → blank_cells n a vga i ≡ vga i
unfolding blank_cells
blank_cells_outside zero a vga i h = refl
blank_cells_outside (suc n) a vga i h =
    blank_cells_outside n (a + 1) _ i (omega arith) ∙ rw (beq_of_ne a i (omega arith))

pub blank_cells_inside :
    (n a : ℕ) (vga : Cells) (i : ℕ) → a ≤ i → i < a + n → blank_cells n a vga i ≡ blank
unfolding blank_cells
blank_cells_inside zero a vga i lo hi = let no : i < i = omega arith in omega arith
blank_cells_inside (suc n) a vga i lo hi = elim (Bool-cases (a == i)) [
  | inl e ↦ blank_cells_outside n (a + 1) _ i (ground arith) ∙ rw e
  | inr e ↦ blank_cells_inside n (a + 1) _ i (ground arith) (omega arith)
]

-- What a scrolled screen shows: each row moves up by one, and the last one is blank.
unfoldable pub scrolled : Cells → Cells
scrolled vga i = if ltb i 1920 then vga (i + 80) else if ltb i 2000 then blank else vga i

-- `scroll` moves every row of the screen up by one, blanks the last and writes to no other word.
pub scroll-scrolled : (vga : Cells) (i : ℕ) → scroll vga i ≡ scrolled vga i
unfolding scroll scrolled
scroll-scrolled vga i = elim (Bool-cases (ltb i 1920)) [
  | inl upper ↦ rw upper (
      blank_cells_outside 80 1920 _ i (ground arith)
      ∙ copy_rows_inside 24 1 vga i (omega arith) (omega arith) (ground arith))
  | inr lower ↦ rw lower (elim (Bool-cases (ltb i 2000)) [
    | inl last ↦ rw last (blank_cells_inside 80 1920 _ i (ground arith) (ground arith))
    | inr off ↦ rw off (
        blank_cells_outside 80 1920 _ i (ground arith)
        ∙ copy_rows_outside 24 1 vga i (omega arith) (ground arith))
  ])
]
