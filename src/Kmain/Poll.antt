-- ===== src/Kmain/Poll.antt =====
-- One pass of the main loop of `kmain`.
use nadir_kernel.Base.{
  ℕ, ◌+◌, ◌≤◌, ◌<◌, ◌≡◌, refl, ap, ◌∙◌, sym, Bool, true, List, [], ◌++◌, Option, some, leb,
  if◌then◌else◌, arith, length, length-append, Bool-cases, inl, inr, to_bytes, codes, sub64,
}
use mathlib.Core.Path.{subst}
use mathlib.Core.List.{append_assoc}
use nadir_kernel.Io.Writes.{Transmits, Transmits-trans}
use nadir_kernel.Console.Screen.{screen}
use nadir_kernel.Console.Text.{type_chars, type_chars-append}
use nadir_kernel.Keyboard.Ring.{contents, length-contents}
use nadir_kernel.Irq.{nap_vectors, pit_ticks}
use nadir_kernel.Console.{Console}
use nadir_kernel.Serial.Output.{Empties}
use nadir_kernel.Kmain.{
  Setup, System, Round, interrupts, report_uptime, poll_uptime, arrivals, main_round,
}
use nadir_kernel.Kmain.Print.{uptime_text, report_uptime-uptime_text}
use nadir_kernel.Kmain.Keeps.{Settled, Settled-trans}
use nadir_kernel.Kmain.States.{IsAlive}
use nadir_kernel.Kmain.Keys.{ticks_after, interrupts_ticks, interrupts-Interrupted}
use nadir_kernel.Kmain.Drain.{drain-Drained}
use nadir_kernel.Kmain.Echo.{print_then_mirror, echo_bytes}

-- Whether the line on the uptime is due.
abbrev pub is_due : ℕ → ℕ → Bool
is_due last now = leb 100 (sub64 now last)

-- What the uptime part leaves, with the read of the tick counter for its line at `stamp`.
record Timed (present : Bool) (last count stamp : ℕ) (s : System) (r : Option (ℕ × System))
    : Type 0 where
  after : System
  result : r ≡ some (if is_due last s.machine.s_ticks then s.machine.s_ticks else last, after)
  settled : Settled s after
  alive : IsAlive after
  new : List ℕ
  few : length new ≤ count
  keys : contents after.machine.keyboard ≡ contents s.machine.keyboard ++ new
  screen_eq :
      screen after.console
      ≡ type_chars
          (if is_due last s.machine.s_ticks then uptime_text stamp s.machine.s_ticks else [])
          (screen s.console)
  transmits :
      Transmits s.machine.log
        (if is_due last s.machine.s_ticks
          then (if present then to_bytes (codes "uptime (see VGA for value)\n") else [])
          else [])
        after.machine.log

-- The line on the uptime after interrupts.
Timed-due :
    (e : Setup) (present : Bool) (stamped : List ℕ) (last : ℕ) (s : System)
    → Empties e.bus e.polls
    → IsAlive s
    → is_due last s.machine.s_ticks ≡ true
    → Timed present last
        (length stamped)
        (interrupts e stamped s).machine.s_ticks
        s
        (poll_uptime e present stamped last s)
unfolding poll_uptime pit_ticks
Timed-due e present stamped last s h a due =
    let now = s.machine.s_ticks in
    let i = interrupts-Interrupted e stamped s a in
    let s1 = interrupts e stamped s in
    let stamp = s1.machine.s_ticks in
    let x =
      print_then_mirror e present (report_uptime stamp now) (uptime_text stamp now)
        (codes "uptime (see VGA for value)\n") s1 h i.alive (report_uptime-uptime_text stamp now) in
    record {
      after = x.after;
      result = rw (due, x.result) refl;
      settled = Settled-trans i.settled x.settled;
      alive = x.alive;
      new = i.new;
      few = i.few;
      keys = ap contents x.keyboard_eq ∙ i.keys;
      screen_eq = rw due (
          x.screen_eq
          ∙ ap (λ (c : Console). type_chars (uptime_text stamp now) (screen c)) i.console_eq);
      transmits = rw due (Transmits-trans i.quiet x.transmits);
    }

poll_uptime-Timed :
    (e : Setup) (present : Bool) (stamped : List ℕ) (last : ℕ) (s : System)
    → Empties e.bus e.polls
    → IsAlive s
    → Timed present last
        (length stamped)
        (interrupts e stamped s).machine.s_ticks
        s
        (poll_uptime e present stamped last s)
unfolding poll_uptime pit_ticks type_chars
poll_uptime-Timed e present stamped last s h a = elim (Bool-cases (is_due last s.machine.s_ticks)) [
  | inl due ↦ Timed-due e present stamped last s h a due
  | inr early ↦
      let i = interrupts-Interrupted e stamped s a in
      record {
        after = interrupts e stamped s;
        result = rw early refl;
        settled = i.settled;
        alive = i.alive;
        new = i.new;
        few = i.few;
        keys = i.keys;
        screen_eq = rw early (ap screen i.console_eq);
        transmits = rw early i.quiet;
      }
]

-- The tick counter when a pass reads it, and when the line on the uptime reads it again.
unfoldable pub woken_at : Round → System → ℕ
woken_at r s = ticks_after s.machine.s_ticks (nap_vectors r.nap)

unfoldable pub stamped_at : Round → System → ℕ
stamped_at r s = ticks_after (woken_at r s) r.stamped

-- The interrupts of a round.
unfoldable pub round_arrivals : Round → ℕ
round_arrivals r = length (nap_vectors r.nap) + length r.stamped + arrivals r.gaps

-- What a pass at time `now` leaves, with the time stamp `stamp` of the line on the uptime. `late` are the
-- characters of keys that interrupts brought since the last test of the pass before.
pub record Polled (present : Bool) (last now stamp : ℕ) (r : Round) (s : System)
    (result : Option (ℕ × System)) : Type 0 where
  pub after : System
  pub result_eq : result ≡ some (if is_due last now then now else last, after)
  pub settled : Settled s after
  pub alive : IsAlive after
  pub none_waits : contents after.machine.keyboard ≡ []
  pub late : List ℕ
  pub few : length late ≤ round_arrivals r
  pub screen_eq :
      screen after.console
      ≡ type_chars
          ((if is_due last now then uptime_text stamp now else [])
            ++ (contents s.machine.keyboard ++ late))
          (screen s.console)
  pub transmits :
      Transmits s.machine.log
        ((if is_due last now
            then (if present then to_bytes (codes "uptime (see VGA for value)\n") else [])
            else [])
          ++ echo_bytes present (contents s.machine.keyboard ++ late))
        after.machine.log

length-waiting : (s : System) → IsAlive s → length (contents s.machine.keyboard) < 128
length-waiting s a = omega (arith, length-contents s.machine.keyboard)

-- The pass with the tick counters as the state has them.
main_round-counted :
    (e : Setup) (present : Bool) (r : Round) (last : ℕ) (s : System)
    → Empties e.bus e.polls
    → IsAlive s
    → let s1 = interrupts e (nap_vectors r.nap) s in
      Polled present last s1.machine.s_ticks
        (interrupts e r.stamped s1).machine.s_ticks
        r
        s
        (main_round e present r (last, s))
unfolding main_round round_arrivals
main_round-counted e present r last s h a =
    let s1 = interrupts e (nap_vectors r.nap) s in
    let i = interrupts-Interrupted e (nap_vectors r.nap) s a in
    let t = poll_uptime-Timed e present r.stamped last s1 h i.alive in
    let d =
      drain-Drained (128 + arrivals r.gaps) e present r.gaps t.after h t.alive
        (omega (arith, length-waiting t.after t.alive)) in
    let late = i.new ++ (t.new ++ d.late) in
    let now = s1.machine.s_ticks in
    let text : List ℕ =
      if is_due last now then uptime_text (interrupts e r.stamped s1).machine.s_ticks now else [] in
    let keys : contents t.after.machine.keyboard ++ d.late ≡ contents s.machine.keyboard ++ late =
      ap (λ (q : List ℕ). q ++ d.late) (t.keys ∙ ap (λ (q : List ℕ). q ++ t.new) i.keys)
      ∙ append_assoc (contents s.machine.keyboard ++ i.new) t.new d.late
      ∙ append_assoc (contents s.machine.keyboard) i.new (t.new ++ d.late) in
    record {
      after = d.after;
      result_eq = rw (t.result, d.result) refl;
      settled = Settled-trans i.settled (Settled-trans t.settled d.settled);
      alive = d.alive;
      none_waits = d.none_waits;
      late = late;
      few = omega (
        arith,
        length-append i.new (t.new ++ d.late),
        length-append t.new d.late,
        i.few,
        t.few,
        d.few,
      );
      screen_eq =
          d.screen_eq
          ∙ ap (λ (q : List ℕ). type_chars q (screen t.after.console)) keys
          ∙ ap (type_chars (contents s.machine.keyboard ++ late)) t.screen_eq
          ∙ sym (type_chars-append text (contents s.machine.keyboard ++ late) (screen s1.console))
          ∙ ap
              (λ (c : Console).
                type_chars (text ++ (contents s.machine.keyboard ++ late)) (screen c))
              i.console_eq;
      transmits = Transmits-trans i.quiet (
          Transmits-trans t.transmits (
            subst
              (λ (q : List ℕ).
                Transmits t.after.machine.log (echo_bytes present q) d.after.machine.log)
              keys d.transmits));
    }

-- Every pass of the main loop comes to its end, whatever interrupts arrive in front of its tests for a key,
-- before and after `hlt` and between the two reads of the tick counter: the kernel is still alive and no
-- key waits. When 100 ticks have passed since the last line on the uptime, the pass has typed that line,
-- with the time of the first read and the stamp of the second, and recorded the time; then it has typed the
-- keys that waited, in their order, and after them at most as many as there were interrupts. With a serial
-- port the same keys have gone out on it, behind the notice on the uptime.
pub main_round-Polled :
    (e : Setup) (present : Bool) (r : Round) (last : ℕ) (s : System)
    → Empties e.bus e.polls
    → IsAlive s
    → Polled present last (woken_at r s) (stamped_at r s) r s (main_round e present r (last, s))
unfolding woken_at stamped_at
main_round-Polled e present r last s h a =
    let s1 = interrupts e (nap_vectors r.nap) s in
    let now = interrupts_ticks e (nap_vectors r.nap) s a in
    let stamp =
      interrupts_ticks e r.stamped s1 (interrupts-Interrupted e (nap_vectors r.nap) s a).alive
      ∙ ap (λ (t : ℕ). ticks_after t r.stamped) now in
    subst
      (λ (t : ℕ).
        Polled present last (ticks_after s.machine.s_ticks (nap_vectors r.nap)) t r s
          (main_round e present r (last, s)))
      stamp
      (subst
        (λ (t : ℕ).
          Polled present last t (interrupts e r.stamped s1).machine.s_ticks r s
            (main_round e present r (last, s)))
        now (main_round-counted e present r last s h a))
