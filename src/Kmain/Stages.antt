-- ===== src/Kmain/Stages.antt =====
-- The boot sequence's part on the gates and its part on the serial port.
use nadir_kernel.Base.{ℕ, ◌≡◌, refl, ap, ◌∙◌, Bool, true, Option, some, codes}
use nadir_kernel.Io.{Log, inb, outb}
use nadir_kernel.Io.Writes.{Extends, same, read, write, Extends-trans, Extends-weaken}
use nadir_kernel.Console.{console_clear}
use nadir_kernel.Console.Screen.{InBounds, Screen, screen}
use nadir_kernel.Console.Text.{type_chars, cleared, console_clear-cleared}
use nadir_kernel.Console.Ports.{console_clear-Extends}
use nadir_kernel.Pic.{pic_remap}
use nadir_kernel.Pic.Lines.{is_masked, is_masked-pic_remap}
use nadir_kernel.Pic.Manual.{off_pic, IsReady, IsReady-Extends, pic_remap-IsReady}
use nadir_kernel.Idt.{idt_init, idt_install_irqs}
use nadir_kernel.Irq.{Machine}
use nadir_kernel.Serial.{serial_init, serial_ok}
use nadir_kernel.Serial.Output.{Empties}
use nadir_kernel.Kmain.{Setup, System, set_log, print, line, boot_gates, boot_serial}
use nadir_kernel.Kmain.Print.{line_text}
use nadir_kernel.Kmain.Keeps.{
  Keeps, Keeps-ticks, Keeps-trans, crt-off_pic, line-Keeps, mirror-Passes, is_masked-Extends,
}

-- What `console_clear` leaves on the screen.
abbrev pub clear_screen : Screen → Screen
clear_screen t = record { at = 0; cells = cleared t.cells }

-- The lines of the first part, from a cleared screen on.
unfoldable pub gates_screen : ℕ → Screen → Screen
gates_screen ticks t =
    let t =
      type_chars
        (line_text ticks "nadir" "Hello World from Nadir kernel (64-bit long mode, Ring 0)")
        (clear_screen t) in
    let t = type_chars (line_text ticks "idt" "exceptions 0-31 installed") t in
    let t = type_chars (line_text ticks "pic" "remapped IRQ 0-15 to vectors 32-47") t in
    type_chars (line_text ticks "idt" "IRQ gates 32-47 installed") t

-- What the first part leaves: all gates installed, all lines masked.
pub record Gated (e : Setup) (t : ℕ) (s s' : System) : Type 0 where
  pub machine_eq : s'.machine ≡ record s.machine { log = s'.machine.log }
  pub idt_eq :
      s'.idt ≡ idt_install_irqs e.irq_stub_table (idt_init e.isr_stub_table e.idt_address s.idt)
  pub pmm_eq : s'.pmm ≡ s.pmm
  pub heap_eq : s'.heap ≡ s.heap
  pub screen_eq : screen s'.console ≡ gates_screen t (screen s.console)
  pub bounds : InBounds s'.console
  pub ready : IsReady s'.machine.log
  pub masked : (i : ℕ) → is_masked i s'.machine.log ≡ true

clear-Keeps : (s : System) → Keeps clear_screen s (print console_clear s)
unfolding print
clear-Keeps s =
    let c = record s.console { log = s.machine.log } in
    record {
      machine_eq = refl;
      idt_eq = refl;
      pmm_eq = refl;
      heap_eq = refl;
      screen_eq = (console_clear-cleared c).screen_eq;
      bounds = (console_clear-cleared c).bounds;
      extends = Extends-weaken crt-off_pic (console_clear-Extends c);
    }

-- From a state before the controllers are set up to one behind the next line of the log.
pub boot_gates-Gated :
    (e : Setup) (t : ℕ) (s : System) → s.machine.s_ticks ≡ t → Gated e t s (boot_gates e s)
unfolding boot_gates gates_screen
boot_gates-Gated e t s start =
    let s1 = print console_clear s in
    let k1 = clear-Keeps s in
    let t1 = Keeps-ticks k1 start in
    let s2 = line "nadir" "Hello World from Nadir kernel (64-bit long mode, Ring 0)" s1 in
    let k2 =
      line-Keeps t "nadir" "Hello World from Nadir kernel (64-bit long mode, Ring 0)" s1 t1
        k1.bounds in
    let t2 = Keeps-ticks k2 t1 in
    let s3 = record s2 { idt = idt_init e.isr_stub_table e.idt_address s2.idt } in
    let s4 = line "idt" "exceptions 0-31 installed" s3 in
    let k4 = line-Keeps t "idt" "exceptions 0-31 installed" s3 t2 k2.bounds in
    let t4 = Keeps-ticks k4 t2 in
    let s5 = set_log (pic_remap s4.machine.log) s4 in
    let s6 = line "pic" "remapped IRQ 0-15 to vectors 32-47" s5 in
    let k6 = line-Keeps t "pic" "remapped IRQ 0-15 to vectors 32-47" s5 t4 k4.bounds in
    let t6 = Keeps-ticks k6 t4 in
    let s7 = record s6 { idt = idt_install_irqs e.irq_stub_table s6.idt } in
    let s8 = line "idt" "IRQ gates 32-47 installed" s7 in
    let k8 = line-Keeps t "idt" "IRQ gates 32-47 installed" s7 t6 k6.bounds in
    let after = Extends-trans k6.extends k8.extends in
    let relog = λ (m : Machine). record m { log = s8.machine.log } in
    record {
      machine_eq =
          k8.machine_eq
          ∙ ap relog k6.machine_eq
          ∙ ap relog k4.machine_eq
          ∙ ap relog k2.machine_eq
          ∙ ap relog k1.machine_eq;
      idt_eq =
          k8.idt_eq
          ∙ ap (idt_install_irqs e.irq_stub_table) (
              k6.idt_eq
              ∙ k4.idt_eq
              ∙ ap (idt_init e.isr_stub_table e.idt_address) (k2.idt_eq ∙ k1.idt_eq));
      pmm_eq = k8.pmm_eq ∙ k6.pmm_eq ∙ k4.pmm_eq ∙ k2.pmm_eq ∙ k1.pmm_eq;
      heap_eq = k8.heap_eq ∙ k6.heap_eq ∙ k4.heap_eq ∙ k2.heap_eq ∙ k1.heap_eq;
      screen_eq =
          k8.screen_eq
          ∙ ap (type_chars (line_text t "idt" "IRQ gates 32-47 installed")) (
              k6.screen_eq
              ∙ ap (type_chars (line_text t "pic" "remapped IRQ 0-15 to vectors 32-47")) (
                  k4.screen_eq
                  ∙ ap (type_chars (line_text t "idt" "exceptions 0-31 installed")) (
                      k2.screen_eq
                      ∙ ap
                          (type_chars (
                            line_text t "nadir"
                              "Hello World from Nadir kernel (64-bit long mode, Ring 0)"))
                          k1.screen_eq)));
      bounds = k8.bounds;
      ready = IsReady-Extends after (pic_remap-IsReady s4.machine.log);
      masked = λ i. is_masked-Extends i after ∙ is_masked-pic_remap s4.machine.log i;
    }

serial_init-Extends : (log : Log) → Extends off_pic log (serial_init log)
unfolding serial_init outb off_pic
serial_init-Extends log = write _ _ refl (
    write _ _ refl
      (write _ _ refl (write _ _ refl (write _ _ refl (write _ _ refl (write _ _ refl same))))))

serial_ok-Extends : (e : Setup) (log : Log) → Extends off_pic log (serial_ok e.bus log).1
unfolding serial_ok inb
serial_ok-Extends e log = read _ _ same

-- What the part on the serial port leaves.
pub record Attached (t : ℕ) (s : System) (r : Option (Bool × System)) : Type 0 where
  pub present : Bool
  pub after : System
  pub result : r ≡ some (present, after)
  pub keeps : Keeps (type_chars (line_text t "serial" "COM1 38400 8N1 ready")) s after

pub boot_serial-Attached :
    (e : Setup) (t : ℕ) (s : System)
    → s.machine.s_ticks ≡ t
    → Empties e.bus e.polls
    → InBounds s.console
    → Attached t s (boot_serial e s)
unfolding boot_serial
boot_serial-Attached e t s start h v =
    let answer = serial_ok e.bus (serial_init s.machine.log) in
    let s1 = set_log answer.1 s in
    let s2 = line "serial" "COM1 38400 8N1 ready" s1 in
    let k1 : Keeps (λ t. t) s s1 = record {
      machine_eq = refl;
      idt_eq = refl;
      pmm_eq = refl;
      heap_eq = refl;
      screen_eq = refl;
      bounds = v;
      extends =
          Extends-trans (serial_init-Extends s.machine.log)
            (serial_ok-Extends e (serial_init s.machine.log));
    } in
    let k2 = line-Keeps t "serial" "COM1 38400 8N1 ready" s1 start v in
    let m = mirror-Passes e answer.0 (codes "Hello World from Nadir kernel\n") s2 h k2.bounds in
    record {
      present = answer.0;
      after = m.after;
      result = rw m.result refl;
      keeps = Keeps-trans k1 (Keeps-trans k2 m.keeps);
    }
