-- ===== src/Kmain.antt =====
-- kernel/core/kmain.c: the boot sequence and the main loop on the state of the whole kernel. What other
-- files or the hardware fix is a record Setup: the answers of the ports, the polls that a wait for the
-- serial port may take, and the addresses and tables that boot code and linker hand over.
pub mod Print
pub mod Keeps
pub mod Stages
pub mod Devices
pub mod States
pub mod Memory
pub mod Boot
pub mod Keys
pub mod Echo
pub mod Drain
pub mod Poll
pub mod Announce
pub mod Loop
mod Examples
use mathlib.Core.Option
use Prim.Native.String.{String}
use nadir_kernel.Base.{
  ℕ, zero, suc, ◌+◌, ◌/◌, ◌%◌, Bool, true, false, not, List, [], ◌∷◌, Option, none, some, ◌>>=◌,
  leb, ◌==◌, if◌then◌else◌, sub64, codes, length,
}
use nadir_kernel.Io.{Log, Bus}
use nadir_kernel.Pmm.{Pmm, E820Entry, pmm_init, pmm_usable_count, pmm_total_count, pmm_free_count}
use nadir_kernel.Kmalloc.{Heap, kmalloc_init, kmalloc_free_frames, kmalloc_used_frames}
use nadir_kernel.Console.{Console, console_clear, console_putchar}
use nadir_kernel.Klog.{klog, klog_begin, klog_str, klog_dec, klog_hex64, klog_end}
use nadir_kernel.Keyboard.{keyboard_has_key, keyboard_dequeue}
use nadir_kernel.Pic.{pic_remap, pic_unmask}
use nadir_kernel.Idt.{Idt, idt_init, idt_install_irqs}
use nadir_kernel.Irq.{Nap, nap_vectors, Machine, irq_dispatch, pit_init, pit_ticks, keyboard_init}
use nadir_kernel.Serial.{serial_init, serial_ok, serial_puts}
use nadir_kernel.SelfTest.{self_test}

abbrev pub proof_value : ℕ
proof_value = 0x0123_4567_89ab_cdef

pub record Setup : Type 0 where
  pub bus : Bus
  pub polls : ℕ
  pub isr_stub_table : ℕ → ℕ
  pub irq_stub_table : ℕ → ℕ
  pub idt_address : ℕ
  pub kernel_start : ℕ
  pub kernel_end : ℕ
  pub memmap_count : ℕ
  pub memmap_entries : Option (ℕ → E820Entry)

-- The state of the kernel. The port log is that of `machine`; the console's is set from it for a call.
pub record System : Type 0 where
  pub console : Console
  pub machine : Machine
  pub idt : Idt
  pub pmm : Pmm
  pub heap : Heap

abbrev pub set_log : Log → System → System
set_log log s = record s { machine = record s.machine { log = log } }

-- A call of the console or the logger.
unfoldable pub print : (Console → Console) → System → System
print f s =
    let c = f (record s.console { log = s.machine.log }) in
    record s { console = c; machine = record s.machine { log = c.log } }

-- `klog(subsystem, msg)`
unfoldable pub line : String → String → System → System
line subsystem msg s = print (klog (pit_ticks s.machine) (codes subsystem) (codes msg)) s

-- `if (serial_present != 0) { serial_puts(text); }`
unfoldable pub mirror : Setup → Bool → List ℕ → System → Option System
mirror e present text s =
    if present
    then Option.map (λ log. set_log log s) (serial_puts e.polls e.bus (some text) s.machine.log)
    else some s

-- The string that `serial_echo` sends for a character: a C string, so nothing for NUL.
unfoldable pub echo_text : ℕ → List ℕ
echo_text c =
    if c == 8
    then 8 ∷ 32 ∷ 8 ∷ []
    else if c == 10
    then 13 ∷ 10 ∷ []
    else if c == 0
    then []
    else c ∷ []

unfoldable pub serial_echo : Setup → ℕ → Bool → System → Option System
serial_echo e c ok s = mirror e ok (echo_text c) s

-- `kmain` down to the installation of the interrupt gates.
unfoldable pub boot_gates : Setup → System → System
boot_gates e s =
    let s = print console_clear s in
    let s = line "nadir" "Hello World from Nadir kernel (64-bit long mode, Ring 0)" s in
    let s = record s { idt = idt_init e.isr_stub_table e.idt_address s.idt } in
    let s = line "idt" "exceptions 0-31 installed" s in
    let s = set_log (pic_remap s.machine.log) s in
    let s = line "pic" "remapped IRQ 0-15 to vectors 32-47" s in
    let s = record s { idt = idt_install_irqs e.irq_stub_table s.idt } in
    line "idt" "IRQ gates 32-47 installed" s

-- The serial port: `serial_present` and the state.
unfoldable pub boot_serial : Setup → System → Option (Bool × System)
boot_serial e s =
    let (present, log) = serial_ok e.bus (serial_init s.machine.log) in
    let s = line "serial" "COM1 38400 8N1 ready" (set_log log s) in
    Option.map (λ s. (present, s)) (mirror e present (codes "Hello World from Nadir kernel\n") s)

-- Timer and keyboard.
unfoldable pub boot_devices : Setup → Bool → System → Option System
boot_devices e present s =
    let s = line "pit" "100Hz on IRQ0" (record s { machine = pit_init s.machine }) in
    mirror e present (codes "pit: 100Hz on IRQ0\n") s >>= λ s.
    let s = record s { machine = keyboard_init e.bus s.machine } in
    mirror e present (codes "keyboard: PS/2 ready on IRQ1\n")
      (line "keyboard" "PS/2 ready on IRQ1" s)

-- The line on the frame allocator.
unfoldable pub report_pmm : ℕ → ℕ → Pmm → Console → Console
report_pmm ticks count p c =
    let c = klog_begin ticks (codes "pmm") c in
    let c = klog_dec count (klog_str (codes "E820 entries ") c) in
    let c = klog_dec (pmm_usable_count p) (klog_str (codes ", usable frames ") c) in
    let c = klog_dec pmm_total_count (klog_str (codes " / total frames ") c) in
    let c = klog_dec (pmm_free_count p) (klog_str (codes ", free frames ") c) in
    let c =
      klog_dec (sub64 (pmm_usable_count p) (pmm_free_count p)) (klog_str (codes ", reserved ") c) in
    klog_end c

unfoldable pub boot_memory : Setup → System → System
boot_memory e s =
    let s = record s {
      pmm = pmm_init e.kernel_start e.kernel_end e.memmap_count e.memmap_entries s.pmm;
    } in
    print (report_pmm (pit_ticks s.machine) e.memmap_count s.pmm) s

-- The line on the self-test.
unfoldable pub report_heap : ℕ → Bool → Heap → Console → Console
report_heap ticks ok h c =
    let c = klog_begin ticks (codes "kmalloc") c in
    let c = klog_str (codes "self-test ") c in
    let c = klog_str (if ok then codes "ok" else codes "FAILED") c in
    let c = klog_dec (kmalloc_free_frames h) (klog_str (codes ", free frames ") c) in
    let c = klog_dec (kmalloc_used_frames h) (klog_str (codes ", used frames ") c) in klog_end c

unfoldable pub boot_heap : System → Option System
boot_heap s =
    let (h, p) = kmalloc_init s.pmm s.heap in
    self_test h >>= λ (ok, h).
    some (print (report_heap (pit_ticks s.machine) ok h) (record s { pmm = p; heap = h }))

-- The last lines before `sti`.
unfoldable pub unmask_lines : Setup → System → System
unmask_lines e s = set_log (pic_unmask e.bus 1 (pic_unmask e.bus 0 s.machine.log)) s

-- `kmain` up to `sti`, with `serial_present`. Interrupts are off.
unfoldable pub boot : Setup → System → Option (Bool × System)
boot e s = boot_serial e (boot_gates e s) >>= λ (present, s). boot_devices e present s >>= λ s.
    boot_heap (boot_memory e s) >>= λ s. some (present, unmask_lines e s)

-- Interrupts that arrive, by their vectors.
unfoldable pub interrupts : Setup → List ℕ → System → System
interrupts e [] s = s
interrupts e (v ∷ vs) s = interrupts e vs (record s { machine = irq_dispatch e.bus v s.machine })

-- The interrupts that arrive up to each of the three lines after `sti`, which begins with a read of the tick
-- counter. Those that arrive during the rest of a line or its copy on the serial port, which read nothing
-- that an interrupt changes, are in the list of the next line.
pub record Opening : Type 0 where
  pub enabled : List ℕ
  pub proof : List ℕ
  pub halting : List ℕ

-- The lines after `sti`.
unfoldable pub announce : Setup → Bool → Opening → System → Option System
announce e present o s =
    let s = line "nadir" "interrupts enabled (IRQs 0-1)" (interrupts e o.enabled s) in
    mirror e present (codes "nadir: interrupts enabled (IRQs 0-1)\n") s >>= λ s.
    let s = interrupts e o.proof s in
    let proof = λ (c : Console). klog_end (
      klog_hex64 proof_value (
        klog_str (codes "64-bit proof value: ")
          (klog_begin (pit_ticks s.machine) (codes "nadir") c))) in
    some (
      line "nadir" "halting in hlt loop (timer + keyboard live)"
        (interrupts e o.halting (print proof s)))

-- The line on the uptime.
unfoldable pub report_uptime : ℕ → ℕ → Console → Console
report_uptime ticks now c =
    let c = klog_begin ticks (codes "nadir") c in
    let c = klog_dec (now / 100) (klog_str (codes "uptime ") c) in
    let c = klog_dec (now / 10 % 10) (klog_str (codes ".") c) in
    let c = klog_hex64 now (klog_str (codes "s (ticks ") c) in klog_end (klog_str (codes ")") c)

-- The first half of a poll pass: `last_uptime` and the state. The interrupts of the list arrive between the
-- read of the tick counter for `now` and that of `klog_begin`.
unfoldable pub poll_uptime : Setup → Bool → List ℕ → ℕ → System → Option (ℕ × System)
poll_uptime e present stamped last_uptime s =
    let now = pit_ticks s.machine in
    let s = interrupts e stamped s in
    if leb 100 (sub64 now last_uptime)
    then Option.map (λ s. (now, s))
        (mirror e present (codes "uptime (see VGA for value)\n")
          (print (report_uptime (pit_ticks s.machine) now) s))
    else some (last_uptime, s)

-- The body of the loop that drains the keyboard.
unfoldable pub echo_key : Setup → Bool → System → Option System
echo_key e present s =
    let (c, k) = keyboard_dequeue s.machine.keyboard in
    let s = record s { machine = record s.machine { keyboard = k } } in
    serial_echo e c present (print (console_putchar c) s)

-- The loop itself, on fuel. Before each test of `keyboard_has_key` the interrupts of the next list
-- arrive; `none` stands for a wait without end or no fuel.
unfoldable pub drain : ℕ → Setup → Bool → List (List ℕ) → System → Option System
drain zero e present gaps s = none
drain (suc fuel) e present [] s =
    let rest = echo_key e present s >>= drain fuel e present [] in
    if keyboard_has_key s.machine.keyboard then rest else some s
drain (suc fuel) e present (vs ∷ gaps) s =
    let s = interrupts e vs s in
    let rest = echo_key e present s >>= drain fuel e present gaps in
    if keyboard_has_key s.machine.keyboard then rest else some s

-- The interrupts of one round of the main loop: those from the last test of `keyboard_has_key` to the read
-- of the tick counter, one of which ends `hlt`; those up to the read for the line on the uptime; and
-- those before each test of the loop that drains the keyboard.
pub record Round : Type 0 where
  pub nap : Nap
  pub stamped : List ℕ
  pub gaps : List (List ℕ)

unfoldable pub arrivals : List (List ℕ) → ℕ
arrivals [] = 0
arrivals (vs ∷ gaps) = length vs + arrivals gaps

-- One round of `for (;;)`. The ring holds at most 127 bytes, and an interrupt adds at most one.
unfoldable pub main_round : Setup → Bool → Round → ℕ × System → Option (ℕ × System)
main_round e present r (last_uptime, s) =
    let s = interrupts e (nap_vectors r.nap) s in
    poll_uptime e present r.stamped last_uptime s >>= λ (last_uptime, s).
    drain (128 + arrivals r.gaps) e present r.gaps s >>= λ s. some (last_uptime, s)

unfoldable pub main_loop : Setup → Bool → List Round → ℕ × System → Option (ℕ × System)
main_loop e present [] state = some state
main_loop e present (r ∷ rs) state = main_round e present r state >>= main_loop e present rs

-- `kmain` with these interrupts after `sti`: up to the last of them, since it never returns.
unfoldable pub kmain : Setup → Opening → List Round → System → Option (ℕ × System)
kmain e o rs s =
    boot e s >>= λ (present, s). announce e present o s >>= λ s. main_loop e present rs (0, s)
