-- ===== src/Io.antt =====
-- include/io.h: port input and output. What the kernel writes and reads is a log, newest event first.
-- The devices are a parameter: what a port answers is a function of the log so far.
pub mod Writes
use nadir_kernel.Base.{ℕ, ◌%◌, List, ◌∷◌}

pub data Event : Type 0 where
  put : ℕ → ℕ → Event
  got : ℕ → ℕ → Event

abbrev pub Log : Type 0
Log = List Event

abbrev pub Bus : Type 0
Bus = Log → ℕ → ℕ

unfoldable pub inb : Bus → ℕ → Log → ℕ × Log
inb bus port log = let value = bus log port % 256 in (value, got port value ∷ log)

unfoldable pub outb : ℕ → ℕ → Log → Log
outb port value log = put port (value % 256) ∷ log

unfoldable pub io_wait : Log → Log
unfolding outb
io_wait log = outb 0x80 0 log
