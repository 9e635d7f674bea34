-- ===== src/Kmain/Devices.antt =====
-- The boot sequence's part on the timer and the keyboard.
use nadir_kernel.Base.{
  ℕ, ◌<◌, ◌≡◌, refl, ap, ◌∙◌, sym, Bool, true, not, ◌&&◌, Option, none, some, ◌==◌, arith, codes,
  Bool-cases, inl, inr,
}
use mathlib.Core.Path.{subst}
use nadir_kernel.Io.{Log, outb}
use nadir_kernel.Io.Writes.{Extends, same, write, Extends-trans}
use nadir_kernel.Console.Screen.{InBounds, Screen, screen}
use nadir_kernel.Keyboard.{clear_state}
use nadir_kernel.Pic.{pic_unmask}
use nadir_kernel.Pic.Lines.{is_masked, pic_unmask-is_masked}
use nadir_kernel.Pic.Manual.{
  off_pic, IsReady, HoldsMasks, IsReady-Latches, IsReady-Extends, pic_unmask-IsReady,
}
use nadir_kernel.Irq.{Machine, pit_init, keyboard_init, irq_register_handler}
use nadir_kernel.Irq.Dispatch.{IsWired, keyboard_init-pit_init-IsWired}
use nadir_kernel.Serial.Output.{Empties}
use nadir_kernel.Kmain.{Setup, System, line, boot_devices}
use nadir_kernel.Kmain.Print.{line_text}
use nadir_kernel.Console.Text.{type_chars}
use nadir_kernel.Kmain.Keeps.{
  Keeps-ticks, Keeps-trans, line-Keeps, mirror-Passes, is_masked-Extends,
}

-- The lines of this part.
unfoldable pub devices_screen : ℕ → Screen → Screen
devices_screen ticks t =
    let t = type_chars (line_text ticks "pit" "100Hz on IRQ0") t in
    type_chars (line_text ticks "keyboard" "PS/2 ready on IRQ1") t

-- What the part on timer and keyboard leaves: both handlers registered, the keyboard's state cleared, and
-- line 1 unmasked.
pub record Driven (t : ℕ) (s : System) (r : Option System) : Type 0 where
  pub after : System
  pub result : r ≡ some after
  pub wired : IsWired after.machine
  pub ticks : after.machine.s_ticks ≡ t
  pub screen_eq : screen after.console ≡ devices_screen t (screen s.console)
  pub keys : after.machine.keyboard ≡ clear_state s.machine.keyboard
  pub idt_eq : after.idt ≡ s.idt
  pub pmm_eq : after.pmm ≡ s.pmm
  pub heap_eq : after.heap ≡ s.heap
  pub bounds : InBounds after.console
  pub ready : IsReady after.machine.log
  pub masked : (i : ℕ) → i < 16 → is_masked i after.machine.log ≡ not (i == 1)

pit_init-Extends : (m : Machine) → Extends off_pic m.log (pit_init m).log
unfolding pit_init irq_register_handler outb off_pic
pit_init-Extends m = elim (Bool-cases (m.s_initialized == 0)) [
  | inl first_time ↦ rw first_time (write _ _ refl (write _ _ refl (write _ _ refl same)))
  | inr again ↦ rw again same
]

pit_init_fields :
    (m : Machine) → ((pit_init m).s_ticks ≡ m.s_ticks) × ((pit_init m).keyboard ≡ m.keyboard)
unfolding pit_init irq_register_handler
pit_init_fields m = (ground arith, ground arith)

pub relog-IsWired : (m : Machine) (log : Log) → IsWired m → IsWired (record m { log = log })
relog-IsWired m log w = record { timer = w.timer; keys = w.keys; others = w.others }

-- A machine on which `pit_init` has been called, with other log entries since.
keyboard_init_later :
    (e : Setup) (m : Machine) (log : Log)
    → m.s_initialized ≡ 0
    → ((i : ℕ) → m.irq_handlers i ≡ none)
    → IsWired (keyboard_init e.bus (record (pit_init m) { log = log }))
unfolding keyboard_init irq_register_handler
keyboard_init_later e m log fresh free =
    let w = keyboard_init-pit_init-IsWired e.bus m fresh free in
    record { timer = w.timer; keys = w.keys; others = w.others }

keyboard_init_log :
    (e : Setup) (m : Machine) → (keyboard_init e.bus m).log ≡ pic_unmask e.bus 1 m.log
unfolding keyboard_init irq_register_handler
keyboard_init_log e m = refl

keyboard_init_fields :
    (e : Setup) (m : Machine)
    → ((keyboard_init e.bus m).s_ticks ≡ m.s_ticks)
      × ((keyboard_init e.bus m).keyboard ≡ clear_state m.keyboard)
unfolding keyboard_init irq_register_handler
keyboard_init_fields e m = (refl, refl)

-- The mask of a line after another one is unmasked on set-up controllers.
pub unmask-is_masked :
    (e : Setup) (irq i : ℕ) (log : Log)
    → HoldsMasks e.bus
    → IsReady log
    → irq < 16
    → i < 16
    → is_masked i (pic_unmask e.bus irq log) ≡ (not (i == irq) && is_masked i log)
unmask-is_masked e irq i log h r hi h16 =
    pic_unmask-is_masked e.bus log irq i (IsReady-Latches e.bus log h r) hi h16

pub boot_devices-Driven :
    (e : Setup) (present : Bool) (t : ℕ) (s : System)
    → s.machine.s_ticks ≡ t
    → Empties e.bus e.polls
    → HoldsMasks e.bus
    → s.machine.s_initialized ≡ 0
    → ((i : ℕ) → s.machine.irq_handlers i ≡ none)
    → InBounds s.console
    → IsReady s.machine.log
    → ((i : ℕ) → is_masked i s.machine.log ≡ true)
    → Driven t s (boot_devices e present s)
unfolding boot_devices devices_screen
boot_devices-Driven e present t s start empties holds fresh free v ready masked =
    let m = s.machine in
    let s1 = record s { machine = pit_init m } in
    let s2 = line "pit" "100Hz on IRQ0" s1 in
    let pit = pit_init_fields m in
    let k2 = line-Keeps t "pit" "100Hz on IRQ0" s1 (pit.0 ∙ start) v in
    let p3 = mirror-Passes e present (codes "pit: 100Hz on IRQ0\n") s2 empties k2.bounds in
    let k3 = Keeps-trans k2 p3.keeps in
    let before = Extends-trans (pit_init-Extends m) k3.extends in
    let ready3 = IsReady-Extends before ready in
    let s4 = record p3.after { machine = keyboard_init e.bus p3.after.machine } in
    let log4 = keyboard_init_log e p3.after.machine in
    let ready4 : IsReady s4.machine.log =
      rw log4 (pic_unmask-IsReady e.bus 1 p3.after.machine.log ready3) in
    let s5 = line "keyboard" "PS/2 ready on IRQ1" s4 in
    let fields = keyboard_init_fields e p3.after.machine in
    let t4 = fields.0 ∙ Keeps-ticks k3 (pit.0 ∙ start) in
    let k5 = line-Keeps t "keyboard" "PS/2 ready on IRQ1" s4 t4 k3.bounds in
    let p6 =
      mirror-Passes e present (codes "keyboard: PS/2 ready on IRQ1\n") s5 empties k5.bounds in
    let k6 = Keeps-trans k5 p6.keeps in
    let wired4 : IsWired s4.machine =
      subst (λ (n : Machine). IsWired (keyboard_init e.bus n)) (sym k3.machine_eq)
        (keyboard_init_later e m p3.after.machine.log fresh free) in
    record {
      after = p6.after;
      result = rw p3.result p6.result;
      wired =
          subst IsWired (sym k6.machine_eq) (relog-IsWired s4.machine p6.after.machine.log wired4);
      ticks = Keeps-ticks k6 t4;
      screen_eq =
          k6.screen_eq ∙ ap (type_chars (line_text t "keyboard" "PS/2 ready on IRQ1")) k3.screen_eq;
      keys =
          ap (λ (n : Machine). n.keyboard) k6.machine_eq
          ∙ fields.1
          ∙ ap (λ (n : Machine). clear_state n.keyboard) k3.machine_eq
          ∙ ap clear_state pit.1;
      idt_eq = k6.idt_eq ∙ k3.idt_eq;
      pmm_eq = k6.pmm_eq ∙ k3.pmm_eq;
      heap_eq = k6.heap_eq ∙ k3.heap_eq;
      bounds = k6.bounds;
      ready = IsReady-Extends k6.extends ready4;
      masked = λ i lt.
          is_masked-Extends i k6.extends
          ∙ ap (is_masked i) log4
          ∙ unmask-is_masked e 1 i p3.after.machine.log holds ready3 (omega arith) lt
          ∙ rw (is_masked-Extends i before ∙ masked i) (ground arith);
    }
