-- ===== src/Kmain/Announce.antt =====
-- The lines of `kmain` after `sti`, with the interrupts between them.
use nadir_kernel.Base.{
  ℕ, ◌≡◌, refl, ap, ◌∙◌, sym, Bool, false, List, [], ◌++◌, Option, some, if◌then◌else◌, codes,
  to_bytes,
}
use mathlib.Core.Path.{subst}
use nadir_kernel.Io.Writes.{Transmits, Transmits-trans}
use Prim.Native.String.{String}
use mathlib.Core.List.{append-nil}
use mathlib.Core.Option.{some-injective}
use nadir_kernel.Console.{Console, console_puts}
use nadir_kernel.Console.Screen.{screen}
use nadir_kernel.Console.Text.{type_chars, type_chars-append}
use nadir_kernel.Klog.{klog, klog_begin, klog_str, klog_hex64, klog_end}
use nadir_kernel.Klog.Stamp.{klog-console_puts}
use nadir_kernel.Irq.{pit_ticks}
use nadir_kernel.Serial.Output.{Empties}
use nadir_kernel.Kmain.{
  Setup, System, Opening, proof_value, line, mirror, print, interrupts, announce,
}
use nadir_kernel.Kmain.Print.{line_text, proof_text, proof-proof_text}
use nadir_kernel.Kmain.Keeps.{Settled, Settled-trans}
use nadir_kernel.Kmain.States.{IsAlive}
use nadir_kernel.Kmain.Keys.{ticks_after, interrupts_ticks, interrupts-Interrupted}
use nadir_kernel.Kmain.Echo.{Echoed, print_then_mirror}

-- The lines after `sti`, with their times.
unfoldable pub welcome : ℕ → ℕ → ℕ → List ℕ
welcome t1 t2 t3 =
    line_text t1 "nadir" "interrupts enabled (IRQs 0-1)"
    ++ (proof_text t2 ++ line_text t3 "nadir" "halting in hlt loop (timer + keyboard live)")

-- The lines and their times when these interrupts arrive, from the tick counter at `sti` on.
unfoldable pub opening_text : Opening → ℕ → List ℕ
opening_text o t =
    let t1 = ticks_after t o.enabled in
    let t2 = ticks_after t1 o.proof in welcome t1 t2 (ticks_after t2 o.halting)

-- The state at the main loop, after the interrupts and these lines.
pub record Announced (e : Setup) (present : Bool) (o : Opening) (s : System) (r : Option System)
    : Type 0 where
  pub after : System
  pub result : r ≡ some after
  pub settled : Settled s after
  pub alive : IsAlive after
  pub screen_eq :
      screen after.console ≡ type_chars (opening_text o s.machine.s_ticks) (screen s.console)
  pub transmits :
      Transmits s.machine.log
        (if present then to_bytes (codes "nadir: interrupts enabled (IRQs 0-1)\n") else [])
        after.machine.log

-- What text and bytes a stretch of the code adds.
record Typed (text sent : List ℕ) (s s' : System) : Type 0 where
  settled : Settled s s'
  alive : IsAlive s'
  screen_eq : screen s'.console ≡ type_chars text (screen s.console)
  transmits : Transmits s.machine.log sent s'.machine.log

Typed-trans :
    {x y v w : List ℕ} {a b c : System}
    → Typed x v a b
    → Typed y w b c
    → Typed (x ++ y) (v ++ w) a c
Typed-trans {x} {y} {a = a} p q = record {
  settled = Settled-trans p.settled q.settled;
  alive = q.alive;
  screen_eq =
      q.screen_eq ∙ ap (type_chars y) p.screen_eq ∙ sym (type_chars-append x y (screen a.console));
  transmits = Transmits-trans p.transmits q.transmits;
}

-- Interrupts in front of it add nothing.
Typed-after :
    {x v : List ℕ} (e : Setup) (vs : List ℕ) {a b : System}
    → IsAlive a
    → Typed x v (interrupts e vs a) b
    → Typed x v a b
Typed-after {x} e vs {a} alive q =
    let i = interrupts-Interrupted e vs a alive in
    record {
      settled = Settled-trans i.settled q.settled;
      alive = q.alive;
      screen_eq = q.screen_eq ∙ ap (λ (c : Console). type_chars x (screen c)) i.console_eq;
      transmits = Transmits-trans i.quiet q.transmits;
    }

Echoed-Typed :
    {text sent : List ℕ} {s : System} {r : Option System}
    → (x : Echoed text sent s r) → Typed text sent s x.after
Echoed-Typed x = record {
  settled = x.settled;
  alive = x.alive;
  screen_eq = x.screen_eq;
  transmits = x.transmits;
}

-- A print without a mirror.
record Quiet (text : List ℕ) (s s' : System) : Type 0 where
  typed : Typed text [] s s'
  ticks_eq : s'.machine.s_ticks ≡ s.machine.s_ticks

print-Quiet :
    (e : Setup) (f : Console → Console) (text : List ℕ) (s : System)
    → Empties e.bus e.polls
    → IsAlive s
    → ((c : Console) → f c ≡ console_puts text c)
    → Quiet text s (print f s)
unfolding mirror
print-Quiet e f text s h a g =
    let x = print_then_mirror e false f text [] s h a g in
    subst (Quiet text s) (some-injective _ _ (sym x.result))
      (record { typed = Echoed-Typed x; ticks_eq = x.ticks_eq })

line-Quiet :
    (e : Setup) (subsystem msg : String) (s : System)
    → Empties e.bus e.polls
    → IsAlive s
    → Quiet (line_text s.machine.s_ticks subsystem msg) s (line subsystem msg s)
unfolding line pit_ticks
line-Quiet e subsystem msg s h a =
    let now = s.machine.s_ticks in
    print-Quiet e (klog now (codes subsystem) (codes msg)) (line_text now subsystem msg) s h a
      (klog-console_puts now (codes subsystem) (codes msg))

pub announce-Announced :
    (e : Setup) (present : Bool) (o : Opening) (s : System)
    → Empties e.bus e.polls
    → IsAlive s
    → Announced e present o s (announce e present o s)
unfolding announce line pit_ticks welcome opening_text
announce-Announced e present o s h a =
    let s1 = interrupts e o.enabled s in
    let a1 = (interrupts-Interrupted e o.enabled s a).alive in
    let now = s1.machine.s_ticks in
    let subsystem = codes "nadir" in
    let enabled = codes "interrupts enabled (IRQs 0-1)" in
    let x =
      print_then_mirror e present (klog now subsystem enabled)
        (line_text now "nadir" "interrupts enabled (IRQs 0-1)")
        (codes "nadir: interrupts enabled (IRQs 0-1)\n") s1 h a1
        (klog-console_puts now subsystem enabled) in
    let s2 = interrupts e o.proof x.after in
    let a2 = (interrupts-Interrupted e o.proof x.after x.alive).alive in
    let t = s2.machine.s_ticks in
    let proof = λ (c : Console). klog_end (
      klog_hex64 proof_value
        (klog_str (codes "64-bit proof value: ") (klog_begin t subsystem c))) in
    let y = print-Quiet e proof (proof_text t) s2 h a2 (proof-proof_text t) in
    let s3 = print proof s2 in
    let s4 = interrupts e o.halting s3 in
    let a4 = (interrupts-Interrupted e o.halting s3 y.typed.alive).alive in
    let z = line-Quiet e "nadir" "halting in hlt loop (timer + keyboard live)" s4 h a4 in
    let all = Typed-after e o.enabled a (
      Typed-trans (Echoed-Typed x) (
        Typed-after e o.proof x.alive
          (Typed-trans y.typed (Typed-after e o.halting y.typed.alive z.typed)))) in
    let t1 = interrupts_ticks e o.enabled s a in
    let t2 =
      interrupts_ticks e o.proof x.after x.alive
      ∙ ap (λ (u : ℕ). ticks_after u o.proof) (x.ticks_eq ∙ t1) in
    let t3 =
      interrupts_ticks e o.halting s3 y.typed.alive
      ∙ ap (λ (u : ℕ). ticks_after u o.halting) (y.ticks_eq ∙ t2) in
    record {
      after = line "nadir" "halting in hlt loop (timer + keyboard live)" s4;
      result = rw x.result refl;
      settled = all.settled;
      alive = all.alive;
      screen_eq =
          all.screen_eq ∙ (λ i. type_chars (welcome (t1 i) (t2 i) (t3 i)) (screen s.console));
      transmits =
          subst
            (λ (q : List ℕ).
              Transmits s.machine.log q
                (line "nadir" "halting in hlt loop (timer + keyboard live)" s4).machine.log)
            (append-nil
              (if present then to_bytes (codes "nadir: interrupts enabled (IRQs 0-1)\n") else []))
            all.transmits;
    }
