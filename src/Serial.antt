-- ===== src/Serial.antt =====
-- kernel/arch/x86_64/serial.c with include/serial.h: the polled serial port, over the port log. The loop
-- that waits for the transmitter has the polls left as fuel, and gives `none` when they are used up.
pub mod Output
mod Examples
use Prim.Native.Nat.{bit_and}
use mathlib.Core.Option
use nadir_kernel.Base.{
  ℕ, zero, suc, Bool, not, List, [], ◌∷◌, Option, none, some, ◌==◌, if◌then◌else◌,
}
use nadir_kernel.Io.{Log, Bus, inb, outb}

abbrev pub com_data : ℕ
com_data = 0x3f8

abbrev pub com_ier : ℕ
com_ier = 0x3f9

abbrev pub com_fifo : ℕ
com_fifo = 0x3fa

abbrev pub com_lctl : ℕ
com_lctl = 0x3fb

abbrev pub com_mctl : ℕ
com_mctl = 0x3fc

abbrev pub com_lsr : ℕ
com_lsr = 0x3fd

abbrev pub lsr_tx_empty : ℕ
lsr_tx_empty = 0x20

unfoldable pub serial_init : Log → Log
serial_init log =
    let log = outb com_ier 0x00 log in
    let log = outb com_lctl 0x80 log in
    let log = outb com_data 0x03 log in
    let log = outb com_ier 0x00 log in
    let log = outb com_lctl 0x03 log in let log = outb com_fifo 0xc7 log in outb com_mctl 0x0b log

unfoldable pub wait_empty : ℕ → Bus → Log → Option Log
wait_empty zero bus log = none
wait_empty (suc polls) bus log =
    let (status, log') = inb bus com_lsr log in
    let rest = wait_empty polls bus log' in
    if bit_and status lsr_tx_empty == 0 then rest else some log'

unfoldable pub serial_putchar : ℕ → Bus → ℕ → Log → Option Log
serial_putchar polls bus c log = Option.map (outb com_data c) (wait_empty polls bus log)

-- The loop of `serial_puts` over the characters before the NUL.
unfoldable pub put_string : ℕ → Bus → List ℕ → Log → Option Log
put_string polls bus [] log = some log
put_string polls bus (c ∷ cs) log = elim (serial_putchar polls bus c log) [
  | none ↦ none
  | some log' ↦ put_string polls bus cs log'
]

-- `none` is the null pointer.
unfoldable pub serial_puts : ℕ → Bus → Option (List ℕ) → Log → Option Log
serial_puts polls bus none log = some log
serial_puts polls bus (some s) log = put_string polls bus s log

unfoldable pub serial_ok : Bus → Log → Bool × Log
serial_ok bus log = let (status, log') = inb bus com_lsr log in (not (status == 0xff), log')
