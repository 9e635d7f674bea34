-- ===== src/Entry/Examples.antt =====
-- The theorem on the 32-bit entry code for a processor with long mode.
use nadir_kernel.Base.{ℕ}
use nadir_kernel.Entry.LongMode.{Leaf, Control}

abbrev modern : ℕ → Leaf
modern leaf = record { eax = 0x80000008; edx = 0x2c100800 }

abbrev reset : Control
reset = record { cr0 = 0x11; cr3 = 0; cr4 = 0; efer = 0 }

abbrev dirty : ℕ → ℕ
dirty a = 0xffff_ffff

abbrev blank_screen : ℕ → ℕ
blank_screen a = 0x0720
