-- ===== src/Kmain/Keeps.antt =====
-- Steps of the boot sequence that leave all but the console and the port log alone.
use Prim.Native.String.{String}
use nadir_kernel.Base.{
  ℕ, ◌≡◌, refl, ap, ◌∙◌, Bool, true, false, List, Option, some, ltb, arith, Bool-cases, inl, inr,
}
use nadir_kernel.Io.{Log}
use nadir_kernel.Io.Writes.{Extends, Extends-trans, Extends-weaken, last_put-Extends}
use mathlib.Core.Path.{subst}
use nadir_kernel.Console.Screen.{InBounds, Screen, screen}
use nadir_kernel.Console.Text.{type_chars}
use nadir_kernel.Console.Ports.{is_crt}
use nadir_kernel.Pic.{mask_port}
use nadir_kernel.Pic.Lines.{is_masked}
use nadir_kernel.Pic.Manual.{off_pic}
use nadir_kernel.Serial.Output.{Empties, is_com_data}
use nadir_kernel.Irq.{Machine}
use nadir_kernel.Kmain.{Setup, System, set_log, line, mirror}
use nadir_kernel.Kmain.Print.{line_text, Shown, line-Shown, mirror-Mirrored}

-- The screen changes by `draw`. No port of the interrupt controllers is written, and the cursor stays on
-- the screen.
pub record Keeps (draw : Screen → Screen) (s s' : System) : Type 0 where
  pub machine_eq : s'.machine ≡ record s.machine { log = s'.machine.log }
  pub idt_eq : s'.idt ≡ s.idt
  pub pmm_eq : s'.pmm ≡ s.pmm
  pub heap_eq : s'.heap ≡ s.heap
  pub screen_eq : screen s'.console ≡ draw (screen s.console)
  pub bounds : InBounds s'.console
  pub extends : Extends off_pic s.machine.log s'.machine.log

pub crt-off_pic : (p : ℕ) → is_crt p ≡ true → off_pic p ≡ true
unfolding is_crt off_pic
crt-off_pic p h = ground arith

pub com-off_pic : (p : ℕ) → is_com_data p ≡ true → off_pic p ≡ true
unfolding is_com_data off_pic
com-off_pic p h = ground arith

pub Keeps-trans :
    {f g : Screen → Screen} {a b c : System} → Keeps f a b → Keeps g b c → Keeps (λ t. g (f t)) a c
Keeps-trans {f} {g} {a} {b} {c} x y = record {
  machine_eq =
      y.machine_eq
      ∙ ap {B = Machine} (λ (m : Machine). record m { log = c.machine.log }) x.machine_eq;
  idt_eq = y.idt_eq ∙ x.idt_eq;
  pmm_eq = y.pmm_eq ∙ x.pmm_eq;
  heap_eq = y.heap_eq ∙ x.heap_eq;
  screen_eq = y.screen_eq ∙ ap g x.screen_eq;
  bounds = y.bounds;
  extends = Extends-trans x.extends y.extends;
}

pub Shown-Keeps : {text : List ℕ} {s s' : System} → Shown text s s' → Keeps (type_chars text) s s'
Shown-Keeps x = record {
  machine_eq = x.machine_eq;
  idt_eq = x.idt_eq;
  pmm_eq = x.pmm_eq;
  heap_eq = x.heap_eq;
  screen_eq = x.screen_eq;
  bounds = x.bounds;
  extends = Extends-weaken crt-off_pic x.extends;
}

pub line-Keeps :
    (t : ℕ) (subsystem msg : String) (s : System)
    → s.machine.s_ticks ≡ t
    → InBounds s.console
    → Keeps (type_chars (line_text t subsystem msg)) s (line subsystem msg s)
line-Keeps t subsystem msg s e v =
    subst (λ (u : ℕ). Keeps (type_chars (line_text u subsystem msg)) s (line subsystem msg s)) e
      (Shown-Keeps (line-Shown subsystem msg s v))

pub Keeps-ticks :
    {f : Screen → Screen} {t : ℕ} {s s' : System}
    → Keeps f s s'
    → s.machine.s_ticks ≡ t
    → s'.machine.s_ticks ≡ t
Keeps-ticks k e = ap (λ (m : Machine). m.s_ticks) k.machine_eq ∙ e

-- The gates and the memory are as they were.
pub record Settled (s s' : System) : Type 0 where
  pub idt_eq : s'.idt ≡ s.idt
  pub pmm_eq : s'.pmm ≡ s.pmm
  pub heap_eq : s'.heap ≡ s.heap

pub Settled-refl : (s : System) → Settled s s
Settled-refl s = record { idt_eq = refl; pmm_eq = refl; heap_eq = refl }

pub Settled-trans : {a b c : System} → Settled a b → Settled b c → Settled a c
Settled-trans x y = record {
  idt_eq = y.idt_eq ∙ x.idt_eq;
  pmm_eq = y.pmm_eq ∙ x.pmm_eq;
  heap_eq = y.heap_eq ∙ x.heap_eq;
}

-- A step that may fail, and does not.
pub record Passes (s : System) (r : Option System) : Type 0 where
  pub after : System
  pub result : r ≡ some after
  pub keeps : Keeps (λ t. t) s after

pub mirror-Passes :
    (e : Setup) (present : Bool) (text : List ℕ) (s : System)
    → Empties e.bus e.polls
    → InBounds s.console
    → Passes s (mirror e present text s)
mirror-Passes e present text s h v =
    let m = mirror-Mirrored e present text s h in
    record {
      after = set_log m.after s;
      result = m.result;
      keeps = record {
        machine_eq = refl;
        idt_eq = refl;
        pmm_eq = refl;
        heap_eq = refl;
        screen_eq = refl;
        bounds = v;
        extends = Extends-weaken com-off_pic m.only;
      };
    }

-- Lines stay masked or not.
pub is_masked-Extends :
    (i : ℕ) {log log' : Log} → Extends off_pic log log' → is_masked i log' ≡ is_masked i log
unfolding is_masked
is_masked-Extends i {log} {log'} x = rw (last_put-Extends (mask_port i) off x)
  where
    off : off_pic (mask_port i) ≡ false
    off = unfold off_pic in elim (Bool-cases (ltb i 8)) [ inl low ↦ rw low | inr high ↦ rw high ]
