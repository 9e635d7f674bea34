-- ===== src/Kmain/Boot.antt =====
-- The boot sequence as a whole: the state at `sti`.
use nadir_kernel.Base.{
  ℕ, ◌≤◌, ◌<◌, ◌≡◌, refl, ap, ◌∙◌, sym, Bool, true, not, List, [], Option, some, ltb, ◌==◌, arith,
}
use mathlib.Core.Path.{subst}
use nadir_kernel.Io.{Log}
use nadir_kernel.Io.Writes.{Extends-trans}
use nadir_kernel.Pmm.{Pmm}
use nadir_kernel.Pmm.Count.{IsCounted}
use nadir_kernel.Kmalloc.Runs.{Run}
use nadir_kernel.Kmalloc.Alloc.{IsHeap}
use nadir_kernel.Console.Screen.{Screen, screen}
use nadir_kernel.Console.Text.{type_chars}
use nadir_kernel.Keyboard.{Keyboard, clear_state}
use nadir_kernel.Keyboard.Ring.{contents, bytes_from}
use nadir_kernel.Keyboard.Typing.{IsDriver}
use nadir_kernel.Pic.{pic_unmask}
use nadir_kernel.Pic.Lines.{is_masked}
use nadir_kernel.Pic.Manual.{IsReady, HoldsMasks, IsReady-Extends, pic_unmask-IsReady}
use nadir_kernel.Idt.Gates.{Installed, idt_install_irqs-idt_init}
use nadir_kernel.Kmalloc.{Heap}
use nadir_kernel.Irq.{Machine}
use nadir_kernel.Irq.Dispatch.{IsWired}
use nadir_kernel.Kmain.{Setup, System, boot_gates, boot_memory, unmask_lines, boot}
use nadir_kernel.Kmain.Print.{line_text, pmm_text, heap_text}
use nadir_kernel.Kmain.Keeps.{Keeps-ticks, is_masked-Extends}
use nadir_kernel.Kmain.Stages.{gates_screen, boot_gates-Gated, boot_serial-Attached}
use nadir_kernel.Kmain.Devices.{
  devices_screen, boot_devices-Driven, relog-IsWired, unmask-is_masked,
}
use nadir_kernel.Kmain.States.{IsSetup, IsCold, IsAlive}
use nadir_kernel.Kmain.Memory.{initial_pmm, boot_memory-Mapped, boot_heap-Stocked}

-- What is on the screen at `sti`, with the frame allocator after `pmm_init` and the result of the
-- self-test.
unfoldable pub boot_screen : Setup → Pmm → Bool → Heap → Screen → Screen
boot_screen e p ok h t =
    let t = gates_screen 0 t in
    let t = type_chars (line_text 0 "serial" "COM1 38400 8N1 ready") t in
    let t = devices_screen 0 t in
    let t = type_chars (pmm_text 0 e.memmap_count p) t in type_chars (heap_text 0 ok h) t

-- The parts of the boot sequence one after the other.
screens :
    (e : Setup) (ok : Bool) (h : Heap) (a : Screen) {p p' : Pmm} {b c d f g : Screen}
    → g ≡ type_chars (heap_text 0 ok h) f
    → p ≡ p'
    → f ≡ type_chars (pmm_text 0 e.memmap_count p) d
    → d ≡ devices_screen 0 c
    → c ≡ type_chars (line_text 0 "serial" "COM1 38400 8N1 ready") b
    → b ≡ gates_screen 0 a
    → g ≡ boot_screen e p' ok h a
unfolding boot_screen
screens e ok h a heap same memory devices serial gates =
    heap ∙ rw (memory, same, devices, serial, gates) refl

-- The state at `sti`, with what the line on the self-test says.
pub record Booted (e : Setup) (s : System) (r : Option (Bool × System)) : Type 0 where
  pub present : Bool
  pub after : System
  pub result : r ≡ some (present, after)
  pub alive : IsAlive after
  pub no_keys : contents after.machine.keyboard ≡ []
  pub gates : Installed e.isr_stub_table e.irq_stub_table s.idt after.idt
  pub frames : IsCounted after.pmm
  pub n : ℕ
  pub free : List Run
  pub heap_eq : IsHeap after.heap free [] n
  pub ok : Bool
  pub passes : 4 ≤ n → ok ≡ true
  pub screen_eq :
      screen after.console ≡ boot_screen e (initial_pmm e s.pmm) ok after.heap (screen s.console)

cleared-IsDriver : (k : Keyboard) → IsDriver (clear_state k) × (contents (clear_state k) ≡ [])
unfolding clear_state contents bytes_from
cleared-IsDriver k = (
  record {
    ring = record { head = omega arith; tail = omega arith };
    shift = omega arith;
    caps = omega arith;
    e0 = omega arith;
  },
  refl,
)

two_lines :
    (e : Setup) (log : Log) (i : ℕ)
    → HoldsMasks e.bus
    → IsReady log
    → i < 16
    → is_masked i log ≡ not (i == 1)
    → is_masked i (pic_unmask e.bus 1 (pic_unmask e.bus 0 log)) ≡ not (ltb i 2)
two_lines e log i h r lt m =
    rw
      (
        unmask-is_masked e 1 i (pic_unmask e.bus 0 log) h (pic_unmask-IsReady e.bus 0 log r)
            (omega arith) lt,
        unmask-is_masked e 0 i log h r (omega arith) lt,
        m,
      )
      (ground arith)

-- From the state that boot code leaves, and on hardware whose serial transmitter empties and whose
-- interrupt controllers hold their masks, the boot sequence gets to `sti`. Then all 48 gates lead to
-- their stubs, timer and keyboard have their handlers, exactly lines 0 and 1 are enabled, no key waits,
-- the frame allocator counts its free frames, and the heap is well formed with no block in use. The
-- screen shows the lines of all parts on a cleared screen, each with tick 0; the one on the self-test
-- reports success if the heap has at least four frames.
pub boot-Booted : (e : Setup) (s : System) → IsSetup e → IsCold s → Booted e s (boot e s)
unfolding boot unmask_lines
boot-Booted e s i cold =
    let g = boot_gates-Gated e 0 s cold.ticks in
    let s1 = boot_gates e s in
    let a =
      boot_serial-Attached e 0 s1 (ap (λ (m : Machine). m.s_ticks) g.machine_eq ∙ cold.ticks)
        i.serial g.bounds in
    let ticks_a = Keeps-ticks a.keeps (ap (λ (m : Machine). m.s_ticks) g.machine_eq ∙ cold.ticks) in
    let extends_a = a.keeps.extends in
    let machine_a : a.after.machine ≡ record s.machine { log = a.after.machine.log } =
      a.keeps.machine_eq
      ∙ ap {B = Machine} (λ (m : Machine). record m { log = a.after.machine.log }) g.machine_eq in
    let d =
      boot_devices-Driven e a.present 0 a.after ticks_a i.serial i.masks
        (ap (λ (m : Machine). m.s_initialized) machine_a ∙ cold.initialized)
        (λ k. ap (λ (m : Machine). m.irq_handlers k) machine_a ∙ cold.handlers k) a.keeps.bounds
        (IsReady-Extends extends_a g.ready) (λ k. is_masked-Extends k extends_a ∙ g.masked k) in
    let pmm_d : d.after.pmm ≡ s.pmm = d.pmm_eq ∙ a.keeps.pmm_eq ∙ g.pmm_eq in
    let m =
      boot_memory-Mapped e 0 d.after d.ticks i
        (λ k. rw (ap (λ (p : Pmm). p.bitmap k) pmm_d) (cold.bitmap k)) d.bounds in
    let s2 = boot_memory e d.after in
    let h =
      boot_heap-Stocked 0 s2 (Keeps-ticks m.keeps d.ticks) m.frames m.zero_used m.keeps.bounds in
    let log = h.after.machine.log in
    let machine_h : h.after.machine ≡ record d.after.machine { log = log } =
      h.machine_eq
      ∙ ap {B = Machine} (λ (n : Machine). record n { log = log }) m.keeps.machine_eq in
    let since = Extends-trans m.keeps.extends h.extends in
    let ready = IsReady-Extends since d.ready in
    let keys : h.after.machine.keyboard ≡ clear_state a.after.machine.keyboard =
      ap (λ (n : Machine). n.keyboard) machine_h ∙ d.keys in
    let ticks = ap (λ (n : Machine). n.s_ticks) machine_h ∙ d.ticks in
    let cleared = cleared-IsDriver a.after.machine.keyboard in
    record {
      present = a.present;
      after = unmask_lines e h.after;
      result = rw (a.result, d.result, h.result) refl;
      alive = record {
        cursor = h.bounds;
        wired =
            relog-IsWired h.after.machine _
              (subst IsWired (sym machine_h) (relog-IsWired d.after.machine log d.wired));
        driver = subst IsDriver (sym keys) cleared.0;
        ticks = omega (arith, ticks);
        lines =
            λ k lt. two_lines e log k i.masks ready lt (is_masked-Extends k since ∙ d.masked k lt);
      };
      no_keys = ap contents keys ∙ cleared.1;
      gates =
          subst (λ t. Installed e.isr_stub_table e.irq_stub_table s.idt t)
            (sym (h.idt_eq ∙ m.keeps.idt_eq ∙ d.idt_eq ∙ a.keeps.idt_eq ∙ g.idt_eq))
            (idt_install_irqs-idt_init e.isr_stub_table e.irq_stub_table e.idt_address s.idt i.isr
              i.irq);
      frames = h.frames;
      n = h.n;
      free = h.free;
      heap_eq = h.well;
      ok = h.ok;
      passes = h.passes;
      screen_eq =
          screens e h.ok h.after.heap (screen s.console) h.screen_eq
            (ap (λ (p : Pmm). initial_pmm e p) pmm_d) m.keeps.screen_eq d.screen_eq
            a.keeps.screen_eq g.screen_eq;
    }
