-- ===== src/Klog/Examples.antt =====
-- The theorems on the logger at concrete lines.
use nadir_kernel.Base.{◌≡◌, [], ◌∷◌, ◌++◌, arith}
use nadir_kernel.Console.{Console, console_puts}
use nadir_kernel.Klog.{klog, klog_dec, seconds_digits}
use nadir_kernel.Klog.Decimal.{Numeral, klog_dec-Numeral}
use nadir_kernel.Klog.Stamp.{TimeField, time_field, line_start, klog-line}

abbrev fresh : Console
fresh = record { cursor_row = 0; cursor_col = 0; vga = λ i. 0; log = [] }

klog_dec-Numeral_example :
    (klog_dec 1024 fresh ≡ console_puts (seconds_digits 1024) fresh)
    × Numeral 1024 (seconds_digits 1024)
klog_dec-Numeral_example = klog_dec-Numeral 1024 fresh (omega arith)

klog-line_example :
    (klog 12345 (b'm' ∷ []) (b'o' ∷ b'k' ∷ []) fresh
      ≡ console_puts (line_start 12345 (b'm' ∷ []) ++ (b'o' ∷ b'k' ∷ []) ++ (10 ∷ [])) fresh)
    × TimeField 12345 (time_field 12345)
klog-line_example = klog-line 12345 (b'm' ∷ []) (b'o' ∷ b'k' ∷ []) fresh (omega arith)
