-- ===== src/Irq.antt =====
-- Interrupts and their handlers: the dispatcher of kernel/arch/x86_64/idt.c, the timer,
-- kernel/arch/x86_64/pit.c with include/pit.h, and `keyboard_init`. A handler's function pointer is the
-- name of the function; NULL is `none`.
pub mod Dispatch
pub mod Sleep
mod Examples
use nadir_kernel.Base.{
  ◌++◌, ℕ, zero, suc, ◌+◌, ◌-◌, ◌*◌, ◌/◌, ◌%◌, ◌^◌, Bool, not, ◌||◌, List, [], ◌∷◌, Option, none,
  some, ltb, leb, ◌==◌, if◌then◌else◌, update, add64, sub64,
}
use nadir_kernel.Io.{Log, Bus, outb}
use nadir_kernel.Keyboard.{Keyboard, clear_state, keyboard_on_irq}
use nadir_kernel.Pic.{pic_eoi, pic_unmask}
use nadir_kernel.Idt.{idt_irq_base, idt_irq_count}

abbrev pub pit_cmd : ℕ
pit_cmd = 0x43

abbrev pub pit_ch0 : ℕ
pit_ch0 = 0x40

abbrev pub pit_cmd_ch0_mode3 : ℕ
pit_cmd_ch0_mode3 = 0x36

abbrev pub pit_base_hz : ℕ
pit_base_hz = 1193182

abbrev pub pit_hz : ℕ
pit_hz = 100

abbrev pub pit_divisor : ℕ
pit_divisor = pit_base_hz / pit_hz

abbrev pub pit_irq : ℕ
pit_irq = 0

-- `pit_on_tick` and `keyboard_on_irq`, the functions that the kernel registers
pub data Handler : Type 0 where
  on_tick : Handler
  on_key : Handler

-- `s_ticks`, `s_initialized`, `irq_handlers`, the keyboard driver's state and the port log
pub record Machine : Type 0 where
  pub s_ticks : ℕ
  pub s_initialized : ℕ
  pub irq_handlers : ℕ → Option Handler
  pub keyboard : Keyboard
  pub log : Log

unfoldable pub irq_register_handler : ℕ → Option Handler → Machine → Machine
irq_register_handler irq handler m =
    if leb idt_irq_count irq
    then m
    else record m { irq_handlers = update m.irq_handlers irq handler }

unfoldable pub pit_on_tick : Machine → Machine
pit_on_tick m = record m { s_ticks = add64 m.s_ticks 1 }

unfoldable pub key_pressed : Bus → Machine → Machine
key_pressed bus m =
    let (log', k') = keyboard_on_irq bus m.log m.keyboard in record m { log = log'; keyboard = k' }

-- A call through a slot of `irq_handlers`.
unfoldable pub call_handler : Bus → Option Handler → Machine → Machine
call_handler bus none m = m
call_handler bus (some on_tick) m = pit_on_tick m
call_handler bus (some on_key) m = key_pressed bus m

unfoldable pub irq_dispatch : Bus → ℕ → Machine → Machine
irq_dispatch bus vector m =
    if ltb vector idt_irq_base || leb (idt_irq_base + idt_irq_count) vector
    then m
    else let irq = vector - idt_irq_base in
      let m' = call_handler bus (m.irq_handlers irq) m in record m' { log = pic_eoi irq m'.log }

unfoldable pub pit_init : Machine → Machine
pit_init m =
    if not (m.s_initialized == 0)
    then m
    else let lo = pit_divisor % 256 in
      let hi = pit_divisor / 256 % 256 in
      let log' = outb pit_ch0 hi (outb pit_ch0 lo (outb pit_cmd pit_cmd_ch0_mode3 m.log)) in
      record (irq_register_handler pit_irq (some on_tick) (record m { log = log' })) {
        s_initialized = 1;
      }

unfoldable pub pit_ticks : Machine → ℕ
pit_ticks m = m.s_ticks

unfoldable pub keyboard_init : Bus → Machine → Machine
keyboard_init bus m =
    let m' =
      irq_register_handler 1 (some on_key) (record m { keyboard = clear_state m.keyboard }) in
    record m' { log = pic_unmask bus 1 m'.log }

-- Interrupts that are taken one after the other, by their vectors.
unfoldable pub dispatch_all : Bus → List ℕ → Machine → Machine
dispatch_all bus [] m = m
dispatch_all bus (v ∷ vs) m = dispatch_all bus vs (irq_dispatch bus v m)

-- The interrupts of a round of a loop that halts: those between its test and `hlt`, which do not end it,
-- the one that ends it, and those after it up to the next test.
pub record Nap : Type 0 where
  pub missed : List ℕ
  pub wakes : ℕ
  pub woken : List ℕ

abbrev pub nap_vectors : Nap → List ℕ
nap_vectors n = n.missed ++ (n.wakes ∷ n.woken)

-- The loop of `pit_sleep`, on the rounds that interrupts allow: `none` stands for a processor that is
-- still halted when they are used up. The result has the rounds that have not begun.
unfoldable pub sleep_loop : Bus → ℕ → ℕ → List Nap → Machine → Option (List Nap × Machine)
sleep_loop bus start ticks [] m = if ltb (sub64 m.s_ticks start) ticks then none else some ([], m)
sleep_loop bus start ticks (n ∷ ns) m =
    let rest = sleep_loop bus start ticks ns (dispatch_all bus (nap_vectors n) m) in
    if ltb (sub64 m.s_ticks start) ticks then rest else some (n ∷ ns, m)

-- `first` are the interrupts between the read of the counter and the first test.
unfoldable pub pit_sleep : Bus → ℕ → List ℕ → List Nap → Machine → Option (List Nap × Machine)
pit_sleep bus ticks first ns m = sleep_loop bus m.s_ticks ticks ns (dispatch_all bus first m)
