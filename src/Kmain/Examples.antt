-- ===== src/Kmain/Examples.antt =====
-- The theorems on the kernel on a machine with a keyboard that answers with the code of A, a serial port
-- whose transmitter is always empty, and three usable frames above the low megabyte.
use nadir_kernel.Base.{
  ℕ, ◌+◌, ◌*◌, ltb, not, ◌%◌, ◌<◌, ◌≡◌, refl, Bool, true, [], ◌∷◌, none, some, arith, ◌==◌,
  if◌then◌else◌, Bool-cases, inl, inr,
}
use nadir_kernel.Io.{Bus, put}
use nadir_kernel.Io.Writes.{last_put}
use nadir_kernel.Pmm.Sample.{bss, table, visited_two}
use nadir_kernel.Pic.Manual.{HoldsMasks}
use nadir_kernel.Pic.Lines.{is_masked}
use nadir_kernel.Irq.{on_tick, on_key}
use nadir_kernel.Base.Bits.{has_flag, all_below, all_below_sound}
use nadir_kernel.Serial.Output.{polled}
use nadir_kernel.Kmain.{Setup, System, Round, Opening, boot, main_round, kmain}
use nadir_kernel.Kmain.States.{IsSetup, IsCold, IsAlive}
use nadir_kernel.Kmain.Boot.{Booted, boot-Booted}
use nadir_kernel.Kmain.Poll.{Polled, main_round-Polled, woken_at, stamped_at}
use nadir_kernel.Kmain.Loop.{Runs, kmain-Runs}

abbrev devices : Bus
devices log port = if port == 0x3fd then 0x60 else if port == 0x60 then 0x1e else last_put port log

abbrev pc : Setup
pc = record {
  bus = devices;
  polls = 1;
  isr_stub_table = λ k. 0x1_0000 + k % 32 * 16;
  irq_stub_table = λ k. 0x1_1000 + k % 16 * 16;
  idt_address = 0x1_8000;
  kernel_start = 0x1_0000;
  kernel_end = 0x2_0000;
  memmap_count = 2;
  memmap_entries = some table;
}

abbrev reset : System
reset = record {
  console = record { cursor_row = 0; cursor_col = 0; vga = λ i. 0; log = [] };
  machine = record {
    s_ticks = 0;
    s_initialized = 0;
    irq_handlers = λ i. none;
    keyboard = record { k_buf = λ i. 0; k_head = 0; k_tail = 0; k_shift = 0; k_caps = 0; k_e0 = 0 };
    log = [];
  };
  idt = record {
    idt = λ i. record {
      offset_low = 0;
      selector = 0;
      ist = 0;
      type_attr = 0;
      offset_mid = 0;
      offset_high = 0;
      reserved = 0;
    };
    limit = 0;
    base = 0;
  };
  pmm = bss;
  heap = record { memory = λ i. 0; g_free_list = 0; g_free_frames = 0; g_used_frames = 0 };
}

devices-HoldsMasks : HoldsMasks devices
devices-HoldsMasks = record {
  reads = λ irq log lt ready. elim (Bool-cases (ltb irq 8)) [
    | inl low ↦ rw low refl
    | inr high ↦ rw high refl
  ];
}

pc-IsSetup : IsSetup pc
pc-IsSetup = record {
  isr = λ k. omega arith;
  irq = λ k. omega arith;
  kernel_order = omega arith;
  kernel_small = omega arith;
  entries = visited_two;
  serial = record {
    busy = λ log. 0;
    soon = λ log. omega arith;
    empty = λ log. unfold polled in refl;
  };
  masks = devices-HoldsMasks;
}

reset-IsCold : IsCold reset
reset-IsCold = record {
  ticks = refl;
  initialized = refl;
  handlers = λ i. refl;
  bitmap = λ i. omega arith;
}

boot-Booted_example : Booted pc reset (boot pc reset)
boot-Booted_example = boot-Booted pc reset pc-IsSetup reset-IsCold

-- A key comes before `hlt`, the timer ends it, and ticks again before the line on the uptime; one key comes
-- before the loop on the keyboard, one while it runs.
abbrev typing : Round
typing = record {
  nap = record { missed = 33 ∷ []; wakes = 32; woken = [] };
  stamped = 32 ∷ [];
  gaps = (33 ∷ []) ∷ (33 ∷ []) ∷ [];
}

-- A tick before each of the first two lines after `sti`.
abbrev ticking : Opening
ticking = record { enabled = 32 ∷ []; proof = 32 ∷ []; halting = [] }

-- A machine whose drivers are set up, with lines 0 and 1 enabled.
abbrev running : System
running = record reset {
  machine = record reset.machine {
    irq_handlers = λ i. if i == 0 then some on_tick else if i == 1 then some on_key else none;
    log = put 0xa1 0xff ∷ put 0x21 0xfc ∷ [];
  };
}

enabled_two : ℕ → Bool
enabled_two i =
    if ltb i 2 then not (is_masked i running.machine.log) else is_masked i running.machine.log

enabled_table : all_below 16 enabled_two ≡ true
unfolding all_below enabled_two is_masked last_put has_flag
enabled_table = refl

running_lines : (i : ℕ) → i < 16 → is_masked i running.machine.log ≡ not (ltb i 2)
running_lines i lt =
    let h : enabled_two i ≡ true = all_below_sound 16 enabled_two i enabled_table lt in
    unfold enabled_two in
    elim (Bool-cases (ltb i 2)) [
      | inl on ↦ rw on (ground (arith, h))
      | inr off ↦ rw off (ground (arith, h))
    ]

running-IsAlive : IsAlive running
running-IsAlive = record {
  cursor = record { row = omega arith; col = omega arith };
  wired = record { timer = refl; keys = refl; others = λ i h. ground arith };
  driver = record {
    ring = record { head = omega arith; tail = omega arith };
    shift = omega arith;
    caps = omega arith;
    e0 = omega arith;
  };
  ticks = omega arith;
  lines = running_lines;
}

main_round-Polled_example :
    Polled true 0
      (woken_at typing running)
      (stamped_at typing running)
      typing
      running
      (main_round pc true typing (0, running))
main_round-Polled_example =
    main_round-Polled pc true typing 0 running pc-IsSetup.serial running-IsAlive

kmain-Runs_example :
    Runs pc ticking (typing ∷ typing ∷ []) reset (kmain pc ticking (typing ∷ typing ∷ []) reset)
kmain-Runs_example = kmain-Runs pc ticking (typing ∷ typing ∷ []) reset pc-IsSetup reset-IsCold
