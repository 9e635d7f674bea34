-- ===== src/Console.antt =====
-- kernel/arch/x86_64/console.c with include/console.h: the VGA text console. Video memory is a function
-- from a cell's index to its 16-bit word; the cursor registers are written through the port log.
pub mod Scroll
pub mod Screen
pub mod Text
pub mod Hex
pub mod Ports
mod Examples
use nadir_kernel.Base.{
  ℕ, zero, suc, ◌+◌, ◌-◌, ◌*◌, ◌/◌, ◌%◌, ◌^◌, List, [], ◌∷◌, ltb, leb, ◌==◌, if◌then◌else◌, update,
}
use nadir_kernel.Io.{Log, outb}

abbrev pub vga_width : ℕ
vga_width = 80

abbrev pub vga_height : ℕ
vga_height = 25

abbrev pub color_default : ℕ
color_default = 0x0f

abbrev pub vga_crt_index : ℕ
vga_crt_index = 0x3d4

abbrev pub vga_crt_data : ℕ
vga_crt_data = 0x3d5

abbrev pub vga_crt_cursor_high : ℕ
vga_crt_cursor_high = 0x0e

abbrev pub vga_crt_cursor_low : ℕ
vga_crt_cursor_low = 0x0f

abbrev pub Cells : Type 0
Cells = ℕ → ℕ

-- `cursor_row`, `cursor_col` and the text buffer, with the port log
pub record Console : Type 0 where
  pub cursor_row : ℕ
  pub cursor_col : ℕ
  pub vga : Cells
  pub log : Log

-- `(uint16_t)((COLOR_DEFAULT << 8) | c)`. A `char` is signed: one from 128 on extends to a word whose
-- upper byte is 0xff.
unfoldable pub cell : ℕ → ℕ
cell c = if ltb c 128 then color_default * 256 + c else 0xff00 + c

abbrev pub blank : ℕ
blank = color_default * 256 + b' '

unfoldable pub update_hw_cursor : Console → Console
update_hw_cursor s =
    let pos = (s.cursor_row * vga_width + s.cursor_col) % 2 ^ 16 in
    record s {
      log = outb vga_crt_data (pos / 256 % 256) (
          outb vga_crt_index vga_crt_cursor_high
            (outb vga_crt_data (pos % 256) (outb vga_crt_index vga_crt_cursor_low s.log)));
    }

-- The inner loop of `scroll`: rounds left, row and column.
unfoldable pub copy_cells : ℕ → ℕ → ℕ → Cells → Cells
copy_cells zero row col vga = vga
copy_cells (suc n) row col vga =
    copy_cells n row (col + 1)
      (update vga ((row - 1) * vga_width + col) (vga (row * vga_width + col)))

unfoldable pub copy_rows : ℕ → ℕ → Cells → Cells
copy_rows zero row vga = vga
copy_rows (suc n) row vga = copy_rows n (row + 1) (copy_cells vga_width row 0 vga)

-- A loop that blanks cells: rounds left and index.
unfoldable pub blank_cells : ℕ → ℕ → Cells → Cells
blank_cells zero i vga = vga
blank_cells (suc n) i vga = blank_cells n (i + 1) (update vga i blank)

unfoldable pub scroll : Cells → Cells
scroll vga = blank_cells vga_width ((vga_height - 1) * vga_width) (copy_rows (vga_height - 1) 1 vga)

unfoldable pub console_clear : Console → Console
console_clear s = update_hw_cursor (record s {
  cursor_row = 0;
  cursor_col = 0;
  vga = blank_cells (vga_width * vga_height) 0 s.vga;
})

-- The end of `console_putchar`: past the bottom line the screen scrolls.
unfoldable pub settle : Console → Console
settle s = update_hw_cursor (
    if leb vga_height s.cursor_row
    then record s { vga = scroll s.vga; cursor_row = vga_height - 1 }
    else s)

-- `vga[cursor_row * VGA_WIDTH + cursor_col] = word`
unfoldable pub put_cell : ℕ → Console → Console
put_cell word s = record s { vga = update s.vga (s.cursor_row * vga_width + s.cursor_col) word }

-- One column on, or to the next line; both counters are bytes.
unfoldable pub advance : Console → Console
advance s =
    if leb vga_width ((s.cursor_col + 1) % 256)
    then record s { cursor_col = 0; cursor_row = (s.cursor_row + 1) % 256 }
    else record s { cursor_col = (s.cursor_col + 1) % 256 }

unfoldable pub console_putchar : ℕ → Console → Console
console_putchar c s =
    if c == 10
    then settle (record s { cursor_row = (s.cursor_row + 1) % 256; cursor_col = 0 })
    else if c == 8
    then (if ltb 0 s.cursor_col
        then settle (put_cell blank (record s { cursor_col = s.cursor_col - 1 }))
        else if ltb 0 s.cursor_row
        then settle (
            put_cell blank (record s { cursor_row = s.cursor_row - 1; cursor_col = vga_width - 1 }))
        else s)
    else settle (advance (put_cell (cell c) s))

-- A string is the list of its characters before the NUL.
unfoldable pub console_puts : List ℕ → Console → Console
console_puts [] s = s
console_puts (c ∷ cs) s = console_puts cs (console_putchar c s)

-- `digits[nibble]`
unfoldable pub hex_digit : ℕ → ℕ
hex_digit nibble = if ltb nibble 10 then b'0' + nibble else b'A' + (nibble - 10)

-- The loop of `console_puthex64`, with the rounds left: `shift` is four times one less.
unfoldable pub puthex_from : ℕ → ℕ → Console → Console
puthex_from zero value s = s
puthex_from (suc n) value s =
    puthex_from n value (console_putchar (hex_digit (value / 2 ^ (4 * n) % 16)) s)

unfoldable pub console_puthex64 : ℕ → Console → Console
console_puthex64 value s = puthex_from 16 value (console_puts (b'0' ∷ b'x' ∷ []) s)
