-- ===== src/Kmain/Echo.antt =====
-- A character on the screen and the serial line, and one key that the main loop echoes.
use nadir_kernel.Base.{
  ℕ, ◌+◌, ◌%◌, ◌^◌, ◌<◌, ◌≡◌, refl, ap, ◌∙◌, sym, Bool, true, List, [], ◌∷◌, ◌++◌, Option, some,
  if◌then◌else◌, arith, to_bytes,
}
use mathlib.Core.Path.{subst}
use nadir_kernel.Io.Writes.{
  Extends-trans, Extends-weaken, Transmits, Transmits-Extends, Transmits-trans,
}
use nadir_kernel.Console.{Console, console_putchar, console_puts}
use nadir_kernel.Console.Screen.{screen, type_char}
use nadir_kernel.Console.Text.{type_chars}
use nadir_kernel.Console.Ports.{is_crt}
use nadir_kernel.Keyboard.{Keyboard, keyboard_has_key, keyboard_dequeue}
use nadir_kernel.Keyboard.Ring.{contents, dequeued_some}
use nadir_kernel.Keyboard.Typing.{IsDriver}
use nadir_kernel.Irq.{Machine}
use nadir_kernel.Serial.Output.{Empties}
use nadir_kernel.Kmain.{Setup, System, set_log, print, mirror, echo_text, serial_echo, echo_key}
use nadir_kernel.Kmain.Print.{print-Shown, mirror-Mirrored}
use nadir_kernel.Kmain.Keeps.{is_masked-Extends, crt-off_pic, com-off_pic, Settled}
use nadir_kernel.Irq.Dispatch.{IsWired}
use nadir_kernel.Kmain.Devices.{relog-IsWired}
use nadir_kernel.Kmain.States.{IsAlive}

-- What goes out on the serial line for these characters.
unfoldable pub echo_bytes : Bool → List ℕ → List ℕ
echo_bytes present [] = []
echo_bytes present (c ∷ cs) =
    (if present then to_bytes (echo_text c) else []) ++ echo_bytes present cs

-- The state after printing and sending: only console and log have changed.
pub record Echoed (text sent : List ℕ) (s : System) (r : Option System) : Type 0 where
  pub after : System
  pub result : r ≡ some after
  pub alive : IsAlive after
  pub settled : Settled s after
  pub keyboard_eq : after.machine.keyboard ≡ s.machine.keyboard
  pub ticks_eq : after.machine.s_ticks ≡ s.machine.s_ticks
  pub screen_eq : screen after.console ≡ type_chars text (screen s.console)
  pub transmits : Transmits s.machine.log sent after.machine.log

pub print_then_mirror :
    (e : Setup) (present : Bool) (f : Console → Console) (text wire : List ℕ) (s : System)
    → Empties e.bus e.polls
    → IsAlive s
    → ((c : Console) → f c ≡ console_puts text c)
    → Echoed text (if present then to_bytes wire else []) s (mirror e present wire (print f s))
print_then_mirror e present f text wire s h a g =
    let p = print-Shown f text s g a.cursor in
    let s1 = print f s in
    let m = mirror-Mirrored e present wire s1 h in
    let extends =
      Extends-trans (Extends-weaken crt-off_pic p.extends) (Extends-weaken com-off_pic m.only) in
    record {
      after = set_log m.after s1;
      result = m.result;
      alive = record {
        cursor = p.bounds;
        wired =
            subst IsWired
              (sym (ap {B = Machine} (λ (n : Machine). record n { log = m.after }) p.machine_eq))
              (relog-IsWired s.machine m.after a.wired);
        driver = subst (λ (n : Machine). IsDriver n.keyboard) (sym p.machine_eq) a.driver;
        ticks = subst (λ (n : Machine). n.s_ticks < 2 ^ 64) (sym p.machine_eq) a.ticks;
        lines = λ i lt. is_masked-Extends i extends ∙ a.lines i lt;
      };
      settled = record { idt_eq = p.idt_eq; pmm_eq = p.pmm_eq; heap_eq = p.heap_eq };
      keyboard_eq = ap (λ (n : Machine). n.keyboard) p.machine_eq;
      ticks_eq = ap (λ (n : Machine). n.s_ticks) p.machine_eq;
      screen_eq = p.screen_eq;
      transmits =
          Transmits-trans (Transmits-Extends {allowed = is_crt} (unfold is_crt in refl) p.extends)
            m.transmits;
    }

-- A key that waits: the driver gives it out, and keeps the others.
record Taken (k : Keyboard) : Type 0 where
  c : ℕ
  left : Keyboard
  result : keyboard_dequeue k ≡ (c, left)
  bytes : contents k ≡ c ∷ contents left
  driver : IsDriver left

dequeue_key : (k : Keyboard) → IsDriver k → keyboard_has_key k ≡ true → Taken k
unfolding keyboard_has_key
dequeue_key k d h =
    let (bytes, result, _) = dequeued_some k d.ring (ground arith) in
    record {
      c = k.k_buf k.k_tail;
      left = record k { k_tail = (k.k_tail + 1) % 128 };
      result = result;
      bytes = bytes;
      driver = record {
        ring = record { head = d.ring.head; tail = omega arith };
        shift = d.shift;
        caps = d.caps;
        e0 = d.e0;
      };
    }

-- One round of the loop on a key that waits.
pub record KeyEchoed (present : Bool) (s : System) (r : Option System) : Type 0 where
  pub c : ℕ
  pub rest : List ℕ
  pub after : System
  pub result : r ≡ some after
  pub bytes : contents s.machine.keyboard ≡ c ∷ rest
  pub keys : contents after.machine.keyboard ≡ rest
  pub settled : Settled s after
  pub alive : IsAlive after
  pub screen_eq : screen after.console ≡ type_char c (screen s.console)
  pub transmits :
      Transmits s.machine.log (if present then to_bytes (echo_text c) else []) after.machine.log

pub echo_key-KeyEchoed :
    (e : Setup) (present : Bool) (s : System)
    → Empties e.bus e.polls
    → IsAlive s
    → keyboard_has_key s.machine.keyboard ≡ true
    → KeyEchoed present s (echo_key e present s)
unfolding echo_key serial_echo
echo_key-KeyEchoed e present s h a key =
    let t = dequeue_key s.machine.keyboard a.driver key in
    let s1 = record s { machine = record s.machine { keyboard = t.left } } in
    let a1 : IsAlive s1 = record {
      cursor = a.cursor;
      wired = record { timer = a.wired.timer; keys = a.wired.keys; others = a.wired.others };
      driver = t.driver;
      ticks = a.ticks;
      lines = a.lines;
    } in
    let x =
      print_then_mirror e present (console_putchar t.c) (t.c ∷ []) (echo_text t.c) s1 h a1
        (λ c. unfold console_puts in refl) in
    rw t.result (record {
      c = t.c;
      rest = contents t.left;
      after = x.after;
      result = x.result;
      bytes = t.bytes;
      keys = ap contents x.keyboard_eq;
      settled = record {
        idt_eq = x.settled.idt_eq;
        pmm_eq = x.settled.pmm_eq;
        heap_eq = x.settled.heap_eq;
      };
      alive = x.alive;
      screen_eq = unfold type_chars in x.screen_eq;
      transmits = x.transmits;
    })
