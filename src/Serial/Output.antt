-- ===== src/Serial/Output.antt =====
-- What goes out on the serial port.
use Prim.Native.Nat.{bit_and}
use nadir_kernel.Base.{
  ℕ, zero, suc, ◌%◌, ◌<◌, ◌≡◌, refl, Bool, false, List, [], ◌∷◌, Option, none, some, arith, ◌==◌,
  Bool-cases, inl, inr, to_bytes,
}
use nadir_kernel.Io.{Log, put, got, Bus, inb, outb}
use nadir_kernel.Io.Writes.{
  Extends, same, read, write, Extends-trans, Transmits, idle, reads, byte, Transmits-trans,
}
use nadir_kernel.Serial.{wait_empty, serial_putchar, put_string, serial_puts, serial_ok}

-- What a read of the line status register returns after `log`.
abbrev pub line_status : Bus → Log → ℕ
line_status bus log = bus log 0x3fd % 256

-- The log after `n` reads of the line status.
unfoldable pub polled : ℕ → Bus → Log → Log
polled zero bus log = log
polled (suc n) bus log = polled n bus (got 0x3fd (line_status bus log) ∷ log)

-- The transmitter empties: whatever has been read and written, fewer than `polls` reads of the line
-- status find it busy. (An open bus, which reads as 0xff, counts as empty.)
pub record Empties (bus : Bus) (polls : ℕ) : Type 0 where
  pub busy : Log → ℕ
  pub soon : (log : Log) → busy log < polls
  pub empty :
      (log : Log) → (bit_and (line_status bus (polled (busy log) bus log)) 0x20 == 0) ≡ false

unfoldable pub is_com_data : ℕ → Bool
is_com_data p = p == 0x3f8

-- The wait ends with a read that finds the transmitter empty.
record Awaited (log : Log) (r : Option Log) : Type 0 where
  status : ℕ
  before : Log
  result : r ≡ some (got 0x3fd status ∷ before)
  ready : (bit_and status 0x20 == 0) ≡ false
  quiet : Transmits log [] before
  only : Extends is_com_data log before

later : {log : Log} (s : ℕ) (r : Option Log) → Awaited (got 0x3fd s ∷ log) r → Awaited log r
later s r a = record {
  status = a.status;
  before = a.before;
  result = a.result;
  ready = a.ready;
  quiet = Transmits-trans (reads 0x3fd s idle) a.quiet;
  only = Extends-trans (read 0x3fd s same) a.only;
}

wait_empty-Awaited :
    (polls n : ℕ) (bus : Bus) (log : Log)
    → n < polls
    → (bit_and (line_status bus (polled n bus log)) 0x20 == 0) ≡ false
    → Awaited log (wait_empty polls bus log)
unfolding wait_empty polled inb
wait_empty-Awaited zero n bus log h e = elim h [ ]
wait_empty-Awaited (suc polls) zero bus log h e = record {
  status = line_status bus log;
  before = log;
  result = rw e;
  ready = e;
  quiet = idle;
  only = same;
}
wait_empty-Awaited (suc polls) (suc n) bus log h e =
    elim (Bool-cases (bit_and (line_status bus log) 0x20 == 0)) [
      | inr ready ↦ record {
        status = line_status bus log;
        before = log;
        result = rw ready;
        ready = ready;
        quiet = idle;
        only = same;
      }
      | inl busy ↦ rw busy (
          later (line_status bus log) _ (
            wait_empty-Awaited polls n bus (got 0x3fd (line_status bus log) ∷ log) (omega arith) e))
    ]

-- The result is a log with these bytes sent, and with no other writes.
pub record Sent (bs : List ℕ) (log : Log) (r : Option Log) : Type 0 where
  pub after : Log
  pub result : r ≡ some after
  pub transmits : Transmits log bs after
  pub only : Extends is_com_data log after

serial_putchar-Sent :
    (polls : ℕ) (bus : Bus) (c : ℕ) (log : Log)
    → Empties bus polls
    → Sent (c % 256 ∷ []) log (serial_putchar polls bus c log)
unfolding serial_putchar outb
serial_putchar-Sent polls bus c log e =
    let a = wait_empty-Awaited polls (e.busy log) bus log (e.soon log) (e.empty log) in
    record {
      after = put 0x3f8 (c % 256) ∷ got 0x3fd a.status ∷ a.before;
      result = rw a.result;
      transmits = byte a.status (c % 256) a.ready refl a.quiet;
      only = write 0x3f8 (c % 256) (unfold is_com_data in refl) (read 0x3fd a.status a.only);
    }

put_string-Sent :
    (polls : ℕ) (bus : Bus) (cs : List ℕ) (log : Log)
    → Empties bus polls
    → Sent (to_bytes cs) log (put_string polls bus cs log)
unfolding put_string to_bytes
put_string-Sent polls bus [] log e = record {
  after = log;
  result = refl;
  transmits = idle;
  only = same;
}
put_string-Sent polls bus (c ∷ cs) log e =
    let one = serial_putchar-Sent polls bus c log e in
    let rest = put_string-Sent polls bus cs one.after e in
    record {
      after = rest.after;
      result = rw (one.result, put_string) rest.result;
      transmits = Transmits-trans one.transmits rest.transmits;
      only = Extends-trans one.only rest.only;
    }

-- The characters behind a pointer that may be null.
abbrev pub string_or_null : Option (List ℕ) → List ℕ
string_or_null none = []
string_or_null (some s) = s

-- If the transmitter empties within the polls that a wait may take, `serial_puts` returns, and the bytes
-- of the string have gone out, all of them and in order, each right after a read of the line status
-- that found the transmitter empty. A null pointer sends nothing.
pub serial_puts-Sent :
    (polls : ℕ) (bus : Bus) (s : Option (List ℕ)) (log : Log)
    → Empties bus polls
    → Sent (to_bytes (string_or_null s)) log (serial_puts polls bus s log)
unfolding serial_puts to_bytes
serial_puts-Sent polls bus none log e = record {
  after = log;
  result = refl;
  transmits = idle;
  only = same;
}
serial_puts-Sent polls bus (some s) log e = put_string-Sent polls bus s log e

-- On an open bus, which reads as 0xff, `serial_ok` reports that there is no port, and the transmitter
-- is nevertheless taken as empty at the first poll.
pub serial_ok_absent :
    (bus : Bus) (log : Log)
    → ((l : Log) → bus l 0x3fd ≡ 0xff)
    → ((serial_ok bus log).0 ≡ false) × Empties bus 1
unfolding serial_ok inb polled
serial_ok_absent bus log h =
    (rw (h log) refl, record { busy = λ l. 0; soon = λ l. omega arith; empty = λ l. rw (h l) refl })
