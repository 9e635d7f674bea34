-- ===== src/Kmain/Loop.antt =====
-- `kmain` as a whole.
use nadir_kernel.Base.{ℕ, ◌≡◌, refl, Bool, List, [], ◌∷◌, Option, some, if◌then◌else◌}
use nadir_kernel.Serial.Output.{Empties}
use nadir_kernel.Kmain.{Setup, System, Opening, Round, boot, announce, main_round, main_loop, kmain}
use nadir_kernel.Kmain.Keeps.{Settled, Settled-refl, Settled-trans}
use nadir_kernel.Kmain.States.{IsSetup, IsCold, IsAlive}
use nadir_kernel.Kmain.Boot.{Booted, boot-Booted}
use nadir_kernel.Kmain.Poll.{Polled, main_round-Polled, woken_at, stamped_at, is_due}
use nadir_kernel.Kmain.Announce.{Announced, announce-Announced}

-- The passes of the main loop one after the other: what each leaves is where the next begins.
pub data Passes (e : Setup) (present : Bool) : List Round → ℕ × System → ℕ × System → Type 0 where
  finished : {last : ℕ} {s : System} → Passes e present [] (last, s) (last, s)
  pass :
      {r : Round} {rs : List Round} {last : ℕ} {s : System} {end : ℕ × System}
      → (p : Polled present last
          (woken_at r s)
          (stamped_at r s)
          r
          s
          (main_round e present r (last, s)))
      → Passes e present rs (if is_due last (woken_at r s) then woken_at r s else last, p.after) end
      → Passes e present (r ∷ rs) (last, s) end

-- What the main loop leaves.
record Looped (e : Setup) (present : Bool) (rs : List Round) (last : ℕ) (s : System)
    (r : Option (ℕ × System)) : Type 0 where
  end : ℕ × System
  result : r ≡ some end
  settled : Settled s end.1
  alive : IsAlive end.1
  passes : Passes e present rs (last, s) end

main_loop-Looped :
    (e : Setup) (present : Bool) (rs : List Round) (last : ℕ) (s : System)
    → Empties e.bus e.polls
    → IsAlive s
    → Looped e present rs last s (main_loop e present rs (last, s))
unfolding main_loop
main_loop-Looped e present [] last s h a = record {
  end = (last, s);
  result = refl;
  settled = Settled-refl s;
  alive = a;
  passes = finished;
}
main_loop-Looped e present (r ∷ rs) last s h a =
    let p = main_round-Polled e present r last s h a in
    let rest =
      main_loop-Looped e present rs (if is_due last (woken_at r s) then woken_at r s else last)
        p.after h p.alive in
    record {
      end = rest.end;
      result = rw p.result_eq rest.result;
      settled = Settled-trans p.settled rest.settled;
      alive = rest.alive;
      passes = pass p rest.passes;
    }

-- A run of the whole kernel: the boot sequence, the lines after `sti`, and the passes.
pub record Runs (e : Setup) (o : Opening) (rs : List Round) (s : System) (r : Option (ℕ × System))
    : Type 0 where
  pub booted : Booted e s (boot e s)
  pub announced :
      Announced e booted.present o booted.after (announce e booted.present o booted.after)
  pub end : ℕ × System
  pub result : r ≡ some end
  pub passes : Passes e booted.present rs (0, announced.after) end
  pub alive : IsAlive end.1
  pub settled : Settled booted.after end.1

-- From the state that boot code leaves, and on hardware whose serial transmitter empties and whose
-- interrupt controllers hold their masks, the kernel boots, prints its lines after `sti`, and completes a
-- pass of the main loop for each of any number of rounds of interrupts, whichever arrive between the lines
-- after `sti`: each of these has the stamp of the interrupts up to it. Each pass does what is stated of
-- one pass, the first with 0 as the time of the last line on the uptime. After the last one the kernel is
-- alive, and the gates, the frame allocator and the heap are as they were at `sti`.
pub kmain-Runs :
    (e : Setup) (o : Opening) (rs : List Round) (s : System)
    → IsSetup e
    → IsCold s
    → Runs e o rs s (kmain e o rs s)
unfolding kmain
kmain-Runs e o rs s i cold =
    let b = boot-Booted e s i cold in
    let a = announce-Announced e b.present o b.after i.serial b.alive in
    let l = main_loop-Looped e b.present rs 0 a.after i.serial a.alive in
    record {
      booted = b;
      announced = a;
      end = l.end;
      result = rw (b.result, a.result) l.result;
      passes = l.passes;
      alive = l.alive;
      settled = Settled-trans a.settled l.settled;
    }
