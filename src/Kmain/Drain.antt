-- ===== src/Kmain/Drain.antt =====
-- The loop of `kmain` that drains the keyboard.
use nadir_kernel.Base.{
  ℕ, zero, suc, ◌+◌, ◌≤◌, ◌<◌, ◌≡◌, refl, ap, ◌∙◌, sym, Bool, false, List, [], ◌∷◌, ◌++◌, Option,
  some, ◌>>=◌, arith, length, length-append, Bool-cases, inl, inr,
}
use mathlib.Core.Path.{subst}
use mathlib.Core.List.{append_assoc}
use nadir_kernel.Io.Writes.{Transmits, idle, Transmits-trans}
use nadir_kernel.Console.{Console}
use nadir_kernel.Console.Screen.{screen}
use nadir_kernel.Console.Text.{type_chars}
use nadir_kernel.Keyboard.{Keyboard, keyboard_has_key}
use nadir_kernel.Keyboard.Ring.{contents, dequeued_none}
use nadir_kernel.Keyboard.Typing.{IsDriver}
use nadir_kernel.Serial.Output.{Empties}
use nadir_kernel.Kmain.{Setup, System, echo_key, interrupts, arrivals, drain}
use nadir_kernel.Kmain.Keeps.{Settled, Settled-refl, Settled-trans}
use nadir_kernel.Kmain.States.{IsAlive}
use nadir_kernel.Kmain.Keys.{Interrupted, interrupts-Interrupted}
use nadir_kernel.Kmain.Echo.{echo_bytes, KeyEchoed, echo_key-KeyEchoed}

-- What the loop leaves: the characters `typed`, which are those that waited and then some that came in
-- the meantime, are on the screen and the serial line, and no key waits.
pub record Drained (present : Bool) (count : ℕ) (s : System) (r : Option System) : Type 0 where
  pub after : System
  pub result : r ≡ some after
  pub late : List ℕ
  pub few : length late ≤ count
  pub settled : Settled s after
  pub alive : IsAlive after
  pub none_waits : contents after.machine.keyboard ≡ []
  pub screen_eq :
      screen after.console ≡ type_chars (contents s.machine.keyboard ++ late) (screen s.console)
  pub transmits :
      Transmits s.machine.log
        (echo_bytes present (contents s.machine.keyboard ++ late))
        after.machine.log

no_key : (k : Keyboard) → IsDriver k → keyboard_has_key k ≡ false → contents k ≡ []
unfolding keyboard_has_key
no_key k d h = (dequeued_none k (ground arith)).0

-- The loop from its test on, after the interrupts before it.
Drained-stop :
    (present : Bool) (count : ℕ) (s : System)
    → IsAlive s
    → keyboard_has_key s.machine.keyboard ≡ false
    → Drained present count s (some s)
unfolding type_chars echo_bytes
Drained-stop present count s a h =
    let nothing = no_key s.machine.keyboard a.driver h in
    record {
      after = s;
      result = refl;
      late = [];
      few = omega arith;
      settled = Settled-refl s;
      alive = a;
      none_waits = nothing;
      screen_eq = rw nothing refl;
      transmits = rw nothing idle;
    }

Drained-step :
    (present : Bool) (count : ℕ) (s : System) (r : Option System) (loop : System → Option System)
    → (x : KeyEchoed present s r) → Drained present count x.after (loop x.after)
    → Drained present count s (r >>= loop)
unfolding type_chars echo_bytes
Drained-step present count s r loop x d =
    let queue : contents s.machine.keyboard ++ d.late ≡ x.c ∷ (x.rest ++ d.late) =
      rw x.bytes refl in
    let typed : contents x.after.machine.keyboard ++ d.late ≡ x.rest ++ d.late =
      ap (λ (q : List ℕ). q ++ d.late) x.keys in
    rw x.result (record {
      after = d.after;
      result = d.result;
      late = d.late;
      few = d.few;
      settled = Settled-trans x.settled d.settled;
      alive = d.alive;
      none_waits = d.none_waits;
      screen_eq =
          d.screen_eq
          ∙ ap (λ (q : List ℕ). type_chars q (screen x.after.console)) typed
          ∙ ap (type_chars (x.rest ++ d.late)) x.screen_eq
          ∙ ap (λ (q : List ℕ). type_chars q (screen s.console)) (sym queue);
      transmits =
          subst (λ (q : List ℕ). Transmits s.machine.log (echo_bytes present q) d.after.machine.log)
            (sym queue)
            (Transmits-trans x.transmits (
              subst
                (λ (q : List ℕ).
                  Transmits x.after.machine.log (echo_bytes present q) d.after.machine.log)
                typed d.transmits));
    })

-- Interrupts in front of the loop.
Drained-after :
    (present : Bool) (a b : ℕ) (s s' : System) (r : Option System)
    → Interrupted a s s'
    → Drained present b s' r
    → Drained present (a + b) s r
Drained-after present a b s s' r i d =
    let queue : contents s'.machine.keyboard ++ d.late
        ≡ contents s.machine.keyboard ++ (i.new ++ d.late) =
      ap (λ (q : List ℕ). q ++ d.late) i.keys
      ∙ append_assoc (contents s.machine.keyboard) i.new d.late in
    record {
      after = d.after;
      result = d.result;
      late = i.new ++ d.late;
      few = omega (arith, length-append i.new d.late, i.few, d.few);
      settled = Settled-trans i.settled d.settled;
      alive = d.alive;
      none_waits = d.none_waits;
      screen_eq =
          d.screen_eq
          ∙ ap (λ (q : List ℕ). type_chars q (screen s'.console)) queue
          ∙ ap
              (λ (c : Console).
                type_chars (contents s.machine.keyboard ++ (i.new ++ d.late)) (screen c))
              i.console_eq;
      transmits = Transmits-trans i.quiet (
          subst
            (λ (q : List ℕ). Transmits s'.machine.log (echo_bytes present q) d.after.machine.log)
            queue d.transmits);
    }

pub drain-Drained :
    (fuel : ℕ) (e : Setup) (present : Bool) (gaps : List (List ℕ)) (s : System)
    → Empties e.bus e.polls
    → IsAlive s
    → length (contents s.machine.keyboard) + arrivals gaps < fuel
    → Drained present (arrivals gaps) s (drain fuel e present gaps s)
unfolding drain arrivals
drain-Drained zero e present gaps s h a enough = elim enough [ ]
drain-Drained (suc fuel) e present [] s h a enough =
    elim (Bool-cases (keyboard_has_key s.machine.keyboard)) [
      | inr done ↦ rw done (Drained-stop present 0 s a done)
      | inl key ↦
          let x = echo_key-KeyEchoed e present s h a key in
          rw key (
            Drained-step present 0 s (echo_key e present s) (drain fuel e present []) x (
              drain-Drained fuel e present [] x.after h x.alive
                (omega (arith, enough, ap length x.bytes, ap length x.keys))))
    ]
drain-Drained (suc fuel) e present (vs ∷ gaps) s h a enough =
    let s' = interrupts e vs s in
    let i = interrupts-Interrupted e vs s a in
    let more : length (contents s'.machine.keyboard)
        ≤ length (contents s.machine.keyboard) + length vs =
      omega (arith, ap length i.keys, length-append (contents s.machine.keyboard) i.new, i.few) in
    Drained-after present (length vs) (arrivals gaps) s s' _ i
      (elim (Bool-cases (keyboard_has_key s'.machine.keyboard)) [
        | inr done ↦ rw done (Drained-stop present (arrivals gaps) s' i.alive done)
        | inl key ↦
            let x = echo_key-KeyEchoed e present s' h i.alive key in
            rw key (
              Drained-step present (arrivals gaps) s' (echo_key e present s')
                (drain fuel e present gaps) x
                (drain-Drained fuel e present gaps x.after h x.alive
                  (omega (arith, enough, more, ap length x.bytes, ap length x.keys))))
      ])
