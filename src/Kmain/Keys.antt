-- ===== src/Kmain/Keys.antt =====
-- What interrupts add while the main loop runs.
use nadir_kernel.Base.{
  ◌+◌, ℕ, ◌-◌, ◌%◌, ◌^◌, ◌≤◌, ◌<◌, ◌≡◌, refl, ap, ◌∙◌, sym, Bool, false, not, ◌&&◌, ◌||◌, List, [],
  ◌∷◌, ◌++◌, ltb, leb, ◌==◌, if◌then◌else◌, arith, length, length-append, Bool-cases, inl, inr,
}
use mathlib.Core.Path.{subst}
use mathlib.Core.List.{append-nil, append_assoc}
use nadir_kernel.Io.{Log, Bus}
use nadir_kernel.Io.Writes.{
  Extends, same, read, write, Extends-trans, Transmits, idle, Transmits-Extends, Transmits-trans,
  last_put-Extends,
}
use nadir_kernel.Keyboard.{k_unshifted}
use nadir_kernel.Keyboard.Ring.{contents, offer}
use nadir_kernel.Keyboard.Typing.{
  IsDriver, Typist, view, key_char, type_code, keyboard_on_irq-type_code,
}
use nadir_kernel.Pic.{mask_port}
use nadir_kernel.Pic.Lines.{is_masked}
use nadir_kernel.Irq.{Machine, irq_dispatch, dispatch_all}
use nadir_kernel.Irq.Dispatch.{IsWired, acknowledged, handled, interrupt, irq_dispatch-interrupt}
use nadir_kernel.Irq.Sleep.{
  timer_count, dispatch_all_ticks, irq_dispatch-IsWired, irq_dispatch_ticks,
}
use nadir_kernel.Kmain.{Setup, System, interrupts}
use nadir_kernel.Kmain.States.{IsAlive}
use nadir_kernel.Kmain.Keeps.{Settled, Settled-refl, Settled-trans}

-- What a scancode adds to the bytes that wait: nothing, or one byte.
added : ℕ → Typist → List ℕ
added code t =
    if code == 0xe0
      || t.e0
      || code == 0xaa
      || code == 0xb6
      || leb 0x80 code
      || code == 0x2a
      || code == 0x36
      || code == 0x3a
      || k_unshifted code == 0
      || length t.queue == 127
    then []
    else key_char code t.shift t.caps ∷ []

type_code-added : (code : ℕ) (t : Typist) → (type_code code t).queue ≡ t.queue ++ added code t
unfolding type_code added offer
type_code-added code t = ground (arith, append-nil t.queue)

length-added : (code : ℕ) (t : Typist) → length (added code t) ≤ 1
unfolding added
length-added code t = ground arith

-- Writes that leave the masks of the controllers and the serial port alone.
unfoldable pub is_calm : ℕ → Bool
is_calm p = not (p == 0x21 || p == 0xa1 || p == 0x3f8)

pub calm-is_masked :
    (i : ℕ) {log log' : Log} → Extends is_calm log log' → is_masked i log' ≡ is_masked i log
unfolding is_masked
calm-is_masked i {log} {log'} x = rw (last_put-Extends (mask_port i) off x)
  where
    off : is_calm (mask_port i) ≡ false
    off = unfold is_calm in elim (Bool-cases (ltb i 8)) [ inl low ↦ rw low | inr high ↦ rw high ]

acknowledged-Extends : (irq : ℕ) (log : Log) → Extends is_calm log (acknowledged irq log)
unfolding acknowledged is_calm
acknowledged-Extends irq log = elim (Bool-cases (ltb irq 8)) [
  | inl low ↦ rw low (write _ _ refl same)
  | inr high ↦ rw high (write _ _ refl (write _ _ refl same))
]

-- After interrupts the bytes that waited still wait, in front of `new` ones, at most one for each.
pub record Heard (count : ℕ) (m m' : Machine) : Type 0 where
  pub new : List ℕ
  pub few : length new ≤ count
  pub keys : contents m'.keyboard ≡ contents m.keyboard ++ new
  pub driver : IsDriver m'.keyboard
  pub wired : IsWired m'
  pub ticks : m'.s_ticks < 2 ^ 64
  pub calm : Extends is_calm m.log m'.log

-- Of the keyboard's part and the log.
record Handled (m m' : Machine) : Type 0 where
  new : List ℕ
  few : length new ≤ 1
  keys : contents m'.keyboard ≡ contents m.keyboard ++ new
  driver : IsDriver m'.keyboard
  calm : Extends is_calm m.log m'.log

unchanged :
    (m m' : Machine)
    → IsDriver m.keyboard
    → m'.keyboard ≡ m.keyboard
    → m'.log ≡ m.log
    → Handled m m'
unchanged m m' d k l = record {
  new = [];
  few = omega arith;
  keys = ap contents k ∙ sym (append-nil (contents m.keyboard));
  driver = subst IsDriver (sym k) d;
  calm = subst (λ (g : Log). Extends is_calm m.log g) (sym l) same;
}

handled-Handled :
    (bus : Bus) (v : ℕ) (m : Machine) → IsDriver m.keyboard → Handled m (handled bus v m)
unfolding handled
handled-Handled bus v m d = elim (Bool-cases (v == 32)) [
  | inl tick ↦ rw tick (unchanged m _ d refl refl)
  | inr no_tick ↦ rw no_tick (elim (Bool-cases (v == 33)) [
    | inr no_key ↦ rw no_key (unchanged m m d refl refl)
    | inl key ↦
        let (log_eq, sees, still) = keyboard_on_irq-type_code bus m.log m.keyboard d in
        let code = bus m.log 0x60 % 256 in
        rw key (record {
          new = added code (view m.keyboard);
          few = length-added code (view m.keyboard);
          keys = ap (λ (t : Typist). t.queue) sees ∙ type_code-added code (view m.keyboard);
          driver = still;
          calm = subst (λ (l : Log). Extends is_calm m.log l) (sym log_eq) (read 0x60 code same);
        })
  ])
]

interrupt-Handled :
    (bus : Bus) (v : ℕ) (m : Machine) → IsDriver m.keyboard → Handled m (interrupt bus v m)
unfolding interrupt
interrupt-Handled bus v m d = elim (Bool-cases (leb 32 v && ltb v 48)) [
  | inr off ↦ rw off (unchanged m m d refl refl)
  | inl line ↦
      let h = handled-Handled bus v m d in
      rw line (record {
        new = h.new;
        few = h.few;
        keys = h.keys;
        driver = h.driver;
        calm = Extends-trans h.calm (acknowledged-Extends (v - 32) (handled bus v m).log);
      })
]

pub irq_dispatch-Heard :
    (bus : Bus) (v : ℕ) (m : Machine)
    → IsWired m
    → IsDriver m.keyboard
    → m.s_ticks < 2 ^ 64
    → Heard 1 m (irq_dispatch bus v m)
irq_dispatch-Heard bus v m w d t =
    let h =
      subst (Handled m) (sym (irq_dispatch-interrupt bus v m w)) (interrupt-Handled bus v m d) in
    record {
      new = h.new;
      few = h.few;
      keys = h.keys;
      driver = h.driver;
      wired = irq_dispatch-IsWired bus v m w;
      ticks = ground (arith, irq_dispatch_ticks bus v m w);
      calm = h.calm;
    }

-- The state after interrupts: only the machine has changed.
pub record Interrupted (count : ℕ) (s s' : System) : Type 0 where
  pub console_eq : s'.console ≡ s.console
  pub settled : Settled s s'
  pub alive : IsAlive s'
  pub new : List ℕ
  pub few : length new ≤ count
  pub keys : contents s'.machine.keyboard ≡ contents s.machine.keyboard ++ new
  pub quiet : Transmits s.machine.log [] s'.machine.log

pub interrupt-Interrupted :
    (e : Setup) (v : ℕ) (s : System)
    → IsAlive s
    → Interrupted 1 s (record s { machine = irq_dispatch e.bus v s.machine })
interrupt-Interrupted e v s a =
    let h = irq_dispatch-Heard e.bus v s.machine a.wired a.driver a.ticks in
    record {
      console_eq = refl;
      settled = record { idt_eq = refl; pmm_eq = refl; heap_eq = refl };
      alive = record {
        cursor = a.cursor;
        wired = h.wired;
        driver = h.driver;
        ticks = h.ticks;
        lines = λ i lt. calm-is_masked i h.calm ∙ a.lines i lt;
      };
      new = h.new;
      few = h.few;
      keys = h.keys;
      quiet = Transmits-Extends {allowed = is_calm} (unfold is_calm in refl) h.calm;
    }

pub interrupts-Interrupted :
    (e : Setup) (vs : List ℕ) (s : System)
    → IsAlive s
    → Interrupted (length vs) s (interrupts e vs s)
unfolding interrupts
interrupts-Interrupted e [] s a = record {
  console_eq = refl;
  settled = Settled-refl s;
  alive = a;
  new = [];
  few = omega arith;
  keys = sym (append-nil (contents s.machine.keyboard));
  quiet = idle;
}
interrupts-Interrupted e (v ∷ vs) s a =
    let one = interrupt-Interrupted e v s a in
    let rest =
      interrupts-Interrupted e vs (record s { machine = irq_dispatch e.bus v s.machine })
        one.alive in
    record {
      console_eq = rest.console_eq;
      settled = Settled-trans one.settled rest.settled;
      alive = rest.alive;
      new = one.new ++ rest.new;
      few = omega (arith, length-append one.new rest.new, one.few, rest.few);
      keys =
          rest.keys
          ∙ ap (λ (q : List ℕ). q ++ rest.new) one.keys
          ∙ append_assoc (contents s.machine.keyboard) one.new rest.new;
      quiet = Transmits-trans one.quiet rest.quiet;
    }

-- The tick counter after interrupts.
abbrev pub ticks_after : ℕ → List ℕ → ℕ
ticks_after t vs = (t + timer_count vs) % 2 ^ 64

interrupts-dispatch_all :
    (e : Setup) (vs : List ℕ) (s : System)
    → (interrupts e vs s).machine ≡ dispatch_all e.bus vs s.machine
unfolding interrupts dispatch_all
interrupts-dispatch_all e [] s = refl
interrupts-dispatch_all e (v ∷ vs) s =
    interrupts-dispatch_all e vs (record s { machine = irq_dispatch e.bus v s.machine })

pub interrupts_ticks :
    (e : Setup) (vs : List ℕ) (s : System)
    → IsAlive s
    → (interrupts e vs s).machine.s_ticks ≡ ticks_after s.machine.s_ticks vs
interrupts_ticks e vs s a =
    ap (λ (m : Machine). m.s_ticks) (interrupts-dispatch_all e vs s)
    ∙ (dispatch_all_ticks e.bus vs s.machine a.wired a.ticks).1
