-- ===== src/Klog.antt =====
-- kernel/core/klog.c with include/klog.h: log lines with a time stamp. The tick count that `pit_ticks`
-- returns is an argument, and so is the console that the characters go to.
pub mod Decimal
pub mod Stamp
mod Examples
use nadir_kernel.Base.{
  ℕ, zero, suc, ◌+◌, ◌*◌, ◌/◌, ◌%◌, List, [], ◌∷◌, ltb, ◌==◌, if◌then◌else◌, length,
}
use nadir_kernel.Irq.{pit_hz}
use nadir_kernel.Console.{Console, console_putchar, console_puts, console_puthex64}

abbrev pub klog_time_width : ℕ
klog_time_width = 12

-- The loop that writes decimal digits to a buffer: rounds left, and the buffer, its last element first.
unfoldable pub push_digits : ℕ → ℕ → List ℕ → List ℕ
push_digits zero v buf = buf
push_digits (suc n) v buf =
    let rest = push_digits n (v / 10) ((b'0' + v % 10) ∷ buf) in if v == 0 then buf else rest

-- The loop that prints a buffer from its last element on.
unfoldable pub print_back : List ℕ → Console → Console
print_back [] s = s
print_back (c ∷ buf) s = print_back buf (console_putchar c s)

-- The buffer `num` of `klog_prefix`.
unfoldable pub seconds_digits : ℕ → List ℕ
seconds_digits secs = if secs == 0 then b'0' ∷ [] else push_digits 20 secs []

-- The loop that pads the field, with the rounds left.
unfoldable pub pad : ℕ → ℕ → Console → Console
pad zero len s = s
pad (suc n) len s =
    let rest = pad n (len + 1) (console_putchar 32 s) in if ltb len klog_time_width then rest else s

-- The loop that prints the fraction, with the rounds left.
unfoldable pub print_fraction : ℕ → ℕ → ℕ → Console → Console
print_fraction zero div frac s = s
print_fraction (suc n) div frac s =
    let rest = print_fraction n (div / 10) frac (console_putchar (b'0' + frac / div % 10) s) in
    if div == 0 then s else rest

unfoldable pub klog_prefix : ℕ → List ℕ → Console → Console
klog_prefix ticks subsystem s =
    let num = seconds_digits (ticks / pit_hz) in
    let s = console_putchar 91 s in
    let s = pad klog_time_width (length num + 7) s in
    let s = print_back num s in
    let s = console_putchar 46 s in
    let s = print_fraction 7 100000 (ticks % pit_hz * 10000) s in
    let s = console_puts (93 ∷ 32 ∷ []) s in
    let s = console_puts subsystem s in console_puts (58 ∷ 32 ∷ []) s

unfoldable pub klog_begin : ℕ → List ℕ → Console → Console
klog_begin ticks subsystem s = klog_prefix ticks subsystem s

unfoldable pub klog_str : List ℕ → Console → Console
klog_str msg s = console_puts msg s

unfoldable pub klog_end : Console → Console
klog_end s = console_putchar 10 s

unfoldable pub klog : ℕ → List ℕ → List ℕ → Console → Console
klog ticks subsystem msg s = klog_end (klog_str msg (klog_begin ticks subsystem s))

unfoldable pub klog_dec : ℕ → Console → Console
klog_dec v s = if v == 0 then console_putchar b'0' s else print_back (push_digits 20 v []) s

unfoldable pub klog_hex64 : ℕ → Console → Console
klog_hex64 v s = console_puthex64 v s
