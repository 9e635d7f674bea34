-- ===== src/Console/Examples.antt =====
-- The theorems on the console at concrete screens.
use nadir_kernel.Base.{◌≡◌, [], ◌∷◌, arith}
use nadir_kernel.Console.{Console, console_puts, console_puthex64}
use nadir_kernel.Console.Screen.{Typed, console_putchar-type_char}
use nadir_kernel.Console.Text.{Printed, console_puts-Printed}
use nadir_kernel.Console.Hex.{HexText, hex_text, console_puthex64-hex_text}

-- The cursor is in the last cell, and each cell holds its index.
abbrev full : Console
full = record { cursor_row = 24; cursor_col = 79; vga = λ i. i; log = [] }

console_putchar-type_char_example : Typed b'x' full
console_putchar-type_char_example =
    console_putchar-type_char b'x' full (record { row = omega arith; col = omega arith })

console_puts-Printed_example :
    Printed (b'a' ∷ 8 ∷ 10 ∷ []) full (console_puts (b'a' ∷ 8 ∷ 10 ∷ []) full)
console_puts-Printed_example =
    console_puts-Printed (b'a' ∷ 8 ∷ 10 ∷ []) full (record { row = omega arith; col = omega arith })

console_puthex64-hex_text_example :
    (console_puthex64 48879 full ≡ console_puts (hex_text 48879) full)
    × HexText 48879 (hex_text 48879)
console_puthex64-hex_text_example = console_puthex64-hex_text 48879 full (omega arith)
