-- ===== src/Keyboard.antt =====
-- kernel/arch/x86_64/keyboard.c with include/keyboard.h: the scancode handler and its ring of bytes.
-- A `char` is its code; the tables hold ASCII only.
pub mod Ring
pub mod Race
pub mod Typing
mod Examples
use nadir_kernel.Base.{
  ℕ, ◌+◌, ◌-◌, ◌%◌, Bool, not, ◌&&◌, ◌||◌, List, [], ◌∷◌, ltb, leb, ◌==◌, if◌then◌else◌, update,
}
use nadir_kernel.Io.{Log, Bus, inb}

abbrev pub kbd_data : ℕ
kbd_data = 0x60

abbrev pub kbd_buf_size : ℕ
kbd_buf_size = 128

abbrev pub sc_release : ℕ
sc_release = 0x80

abbrev pub sc_extended : ℕ
sc_extended = 0xe0

abbrev pub sc_lshift : ℕ
sc_lshift = 0x2a

abbrev pub sc_rshift : ℕ
sc_rshift = 0x36

abbrev pub sc_caps : ℕ
sc_caps = 0x3a

-- The element of an array that is given by those of its elements that are not 0.
unfoldable pub element : ℕ → List (ℕ × ℕ) → ℕ
element code [] = 0
element code ((i, c) ∷ rest) = if i == code then c else element code rest

unfoldable pub k_unshifted : ℕ → ℕ
unfolding element
k_unshifted code = element code (
    (0x02, b'1')
    ∷ (0x03, b'2')
    ∷ (0x04, b'3')
    ∷ (0x05, b'4')
    ∷ (0x06, b'5')
    ∷ (0x07, b'6')
    ∷ (0x08, b'7')
    ∷ (0x09, b'8')
    ∷ (0x0a, b'9')
    ∷ (0x0b, b'0')
    ∷ (0x0c, 45)
    ∷ (0x0d, 61)
    ∷ (0x0e, 8)
    ∷ (0x0f, 9)
    ∷ (0x10, b'q')
    ∷ (0x11, b'w')
    ∷ (0x12, b'e')
    ∷ (0x13, b'r')
    ∷ (0x14, b't')
    ∷ (0x15, b'y')
    ∷ (0x16, b'u')
    ∷ (0x17, b'i')
    ∷ (0x18, b'o')
    ∷ (0x19, b'p')
    ∷ (0x1a, 91)
    ∷ (0x1b, 93)
    ∷ (0x1c, 10)
    ∷ (0x1e, b'a')
    ∷ (0x1f, b's')
    ∷ (0x20, b'd')
    ∷ (0x21, b'f')
    ∷ (0x22, b'g')
    ∷ (0x23, b'h')
    ∷ (0x24, b'j')
    ∷ (0x25, b'k')
    ∷ (0x26, b'l')
    ∷ (0x27, 59)
    ∷ (0x28, 39)
    ∷ (0x29, 96)
    ∷ (0x2b, 92)
    ∷ (0x2c, b'z')
    ∷ (0x2d, b'x')
    ∷ (0x2e, b'c')
    ∷ (0x2f, b'v')
    ∷ (0x30, b'b')
    ∷ (0x31, b'n')
    ∷ (0x32, b'm')
    ∷ (0x33, 44)
    ∷ (0x34, 46)
    ∷ (0x35, 47)
    ∷ (0x39, 32)
    ∷ [])

unfoldable pub k_shifted : ℕ → ℕ
unfolding element
k_shifted code = element code (
    (0x02, 33)
    ∷ (0x03, 64)
    ∷ (0x04, 35)
    ∷ (0x05, 36)
    ∷ (0x06, 37)
    ∷ (0x07, 94)
    ∷ (0x08, 38)
    ∷ (0x09, 42)
    ∷ (0x0a, 40)
    ∷ (0x0b, 41)
    ∷ (0x0c, 95)
    ∷ (0x0d, 43)
    ∷ (0x0e, 8)
    ∷ (0x0f, 9)
    ∷ (0x10, b'Q')
    ∷ (0x11, b'W')
    ∷ (0x12, b'E')
    ∷ (0x13, b'R')
    ∷ (0x14, b'T')
    ∷ (0x15, b'Y')
    ∷ (0x16, b'U')
    ∷ (0x17, b'I')
    ∷ (0x18, b'O')
    ∷ (0x19, b'P')
    ∷ (0x1a, 123)
    ∷ (0x1b, 125)
    ∷ (0x1c, 10)
    ∷ (0x1e, b'A')
    ∷ (0x1f, b'S')
    ∷ (0x20, b'D')
    ∷ (0x21, b'F')
    ∷ (0x22, b'G')
    ∷ (0x23, b'H')
    ∷ (0x24, b'J')
    ∷ (0x25, b'K')
    ∷ (0x26, b'L')
    ∷ (0x27, 58)
    ∷ (0x28, 34)
    ∷ (0x29, 126)
    ∷ (0x2b, 124)
    ∷ (0x2c, b'Z')
    ∷ (0x2d, b'X')
    ∷ (0x2e, b'C')
    ∷ (0x2f, b'V')
    ∷ (0x30, b'B')
    ∷ (0x31, b'N')
    ∷ (0x32, b'M')
    ∷ (0x33, 60)
    ∷ (0x34, 62)
    ∷ (0x35, 63)
    ∷ (0x39, 32)
    ∷ [])

-- `k_buf`, `k_head`, `k_tail`, `k_shift`, `k_caps` and `k_e0`
pub record Keyboard : Type 0 where
  pub k_buf : ℕ → ℕ
  pub k_head : ℕ
  pub k_tail : ℕ
  pub k_shift : ℕ
  pub k_caps : ℕ
  pub k_e0 : ℕ

unfoldable pub enqueue : ℕ → Keyboard → Keyboard
enqueue c k =
    let next = (k.k_head + 1) % kbd_buf_size in
    if next == k.k_tail then k else record k { k_buf = update k.k_buf k.k_head c; k_head = next }

-- The lines of `keyboard_init` that clear the driver's own state.
unfoldable pub clear_state : Keyboard → Keyboard
clear_state k = record k { k_head = 0; k_tail = 0; k_shift = 0; k_caps = 0; k_e0 = 0 }

-- `a != b` for two truth values
abbrev pub differ : Bool → Bool → Bool
differ a b = (a && not b) || (not a && b)

-- The character that `keyboard_on_irq` enqueues for a key whose unshifted character is `base`.
unfoldable pub translate : ℕ → ℕ → Keyboard → ℕ
translate code base k =
    if leb b'a' base && leb base b'z'
    then (if differ (not (k.k_shift == 0)) (not (k.k_caps == 0)) then base - b'a' + b'A' else base)
    else if not (k.k_shift == 0)
    then (if not (k_shifted code == 0) then k_shifted code else base)
    else base

-- `keyboard_on_irq` below the read of the scancode. `code & 0x80` tests the highest bit of a byte, and
-- `code & ~0x80` drops it.
unfoldable pub on_code : ℕ → Keyboard → Keyboard
on_code code k =
    if code == sc_extended
    then record k { k_e0 = 1 }
    else if not (k.k_e0 == 0)
    then record k { k_e0 = 0 }
    else if leb sc_release code
    then (let make = code % sc_release in
        if make == sc_lshift || make == sc_rshift then record k { k_shift = 0 } else k)
    else if code == sc_lshift || code == sc_rshift
    then record k { k_shift = 1 }
    else if code == sc_caps
    then record k { k_caps = if k.k_caps == 0 then 1 else 0 }
    else if leb 128 code
    then k
    else if k_unshifted code == 0
    then k
    else enqueue (translate code (k_unshifted code) k) k

unfoldable pub keyboard_on_irq : Bus → Log → Keyboard → Log × Keyboard
keyboard_on_irq bus log k = let (code, log') = inb bus kbd_data log in (log', on_code code k)

unfoldable pub keyboard_has_key : Keyboard → Bool
keyboard_has_key k = not (k.k_head == k.k_tail)

unfoldable pub keyboard_dequeue : Keyboard → ℕ × Keyboard
keyboard_dequeue k =
    if k.k_head == k.k_tail
    then (0, k)
    else (k.k_buf k.k_tail, record k { k_tail = (k.k_tail + 1) % kbd_buf_size })
