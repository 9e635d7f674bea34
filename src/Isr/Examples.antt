-- ===== src/Isr/Examples.antt =====
-- The theorems on the stubs for a program with the stack pointer between two multiples of 16.
use nadir_kernel.Base.{◌+◌, ◌≡◌, refl, [], none, arith, ltb, if◌then◌else◌}
use nadir_kernel.Io.{Bus}
use nadir_kernel.Console.{Console}
use nadir_kernel.Irq.{Machine, irq_dispatch}
use nadir_kernel.Isr.{Cpu, Entry, reg_number, irq_entry}
use nadir_kernel.Isr.Frame.{HasStack}
use nadir_kernel.Isr.Resume.{KeepsStack, Resumed, irq_entry-Resumed}

abbrev program : Cpu
program = record {
  regs = reg_number;
  rsp = 0x8_ffc8;
  rip = 0x1_2345;
  cs = 0x18;
  ss = 0x20;
  rflags = 0x202;
  memory = λ a. a;
}

abbrev gate : Entry
gate = record { rip = 0x1_0800; cs = 0x18; rflags = 0x2 }

-- A function that leaves 7 in every register and 1 in all words below the stack.
abbrev spoil : Cpu → Cpu
spoil c = record c { regs = λ r. 7; memory = λ a. if ltb a c.rsp then 1 else c.memory a }

spoil-KeepsStack : KeepsStack spoil
spoil-KeepsStack = record { rsp = λ c al. refl; memory = λ c a al h. ground arith }

program-HasStack : HasStack program
program-HasStack = record { room = omega arith; fits = omega arith }

abbrev quiet : Bus
quiet log port = 0

abbrev machine : Machine
machine = record {
  s_ticks = 0;
  s_initialized = 0;
  irq_handlers = λ i. none;
  keyboard = record { k_buf = λ i. 0; k_head = 0; k_tail = 0; k_shift = 0; k_caps = 0; k_e0 = 0 };
  log = [];
}

irq_entry-Resumed_example :
    (c' : Cpu) × (irq_entry spoil quiet gate 1 (program, machine)
      ≡ (c', irq_dispatch quiet (32 + 1) machine))
    × Resumed program c'
irq_entry-Resumed_example =
    irq_entry-Resumed spoil quiet gate 1 program machine spoil-KeepsStack (omega arith)
      program-HasStack

abbrev screen : Console
screen = record { cursor_row = 0; cursor_col = 0; vga = λ i. 0; log = [] }
