-- ===== src/Serial/Examples.antt =====
-- The theorems on the serial port with a concrete transmitter.
use Prim.Native.Nat.{bit_and}
use nadir_kernel.Base.{ℕ, ◌%◌, ◌<◌, ◌≡◌, refl, false, [], ◌∷◌, some, arith, ◌==◌, to_bytes, codes}
use nadir_kernel.Io.{Log, Bus, put, got}
use nadir_kernel.Serial.{serial_puts}
use nadir_kernel.Serial.Output.{Empties, polled, Sent, serial_puts-Sent}

-- A transmitter that is busy at the first read after a write, and empty from then on.
abbrev uart : Bus
uart (put p v ∷ log) port = 0
uart log port = 0x60

busy_reads : Log → ℕ
busy_reads (put p v ∷ log) = 1
busy_reads log = 0

uart-Empties : Empties uart 2
unfolding polled busy_reads
uart-Empties = record { busy = busy_reads; soon = soon; empty = empty }
  where
    soon : (log : Log) → busy_reads log < 2
    soon [] = omega arith
    soon (put p v ∷ log) = omega arith
    soon (got p v ∷ log) = omega arith

    empty :
        (log : Log)
        → (bit_and (uart (polled (busy_reads log) uart log) 0x3fd % 256) 0x20 == 0) ≡ false
    empty [] = refl
    empty (put p v ∷ log) = refl
    empty (got p v ∷ log) = refl

serial_puts-Sent_example :
    Sent (to_bytes (codes "ok")) [] (serial_puts 2 uart (some (codes "ok")) [])
serial_puts-Sent_example = serial_puts-Sent 2 uart (some (codes "ok")) [] uart-Empties
