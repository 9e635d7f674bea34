-- ===== src/Irq/Sleep.antt =====
-- `pit_sleep` under any sequence of interrupts.
use nadir_kernel.Base.{
  ◌∙◌, ℕ, suc, ◌+◌, ◌%◌, ◌^◌, ◌≤◌, ◌<◌, ◌≡◌, refl, ap, sym, List, [], ◌∷◌, ◌++◌, Option, some,
  arith, ltb, ◌==◌, if◌then◌else◌, add64, sub64, Bool-cases, inl, inr, le→ltb,
}
use nadir_kernel.Io.{Bus}
use nadir_kernel.Irq.{Machine, irq_dispatch, dispatch_all, Nap, nap_vectors, sleep_loop, pit_sleep}
use nadir_kernel.Irq.Dispatch.{IsWired, handled, interrupt, irq_dispatch-interrupt}

-- The number of timer interrupts among the vectors.
unfoldable pub timer_count : List ℕ → ℕ
timer_count [] = 0
timer_count (v ∷ vs) = let rest = timer_count vs in if v == 32 then suc rest else rest

interrupt_ticks :
    (bus : Bus) (v : ℕ) (m : Machine)
    → (interrupt bus v m).s_ticks ≡ (if v == 32 then add64 m.s_ticks 1 else m.s_ticks)
unfolding interrupt handled
interrupt_ticks bus v m = ground arith

interrupt_handlers :
    (bus : Bus) (v : ℕ) (m : Machine) → (interrupt bus v m).irq_handlers ≡ m.irq_handlers
unfolding interrupt handled
interrupt_handlers bus v m = ground arith

pub irq_dispatch_ticks :
    (bus : Bus) (v : ℕ) (m : Machine)
    → IsWired m
    → (irq_dispatch bus v m).s_ticks ≡ (if v == 32 then add64 m.s_ticks 1 else m.s_ticks)
irq_dispatch_ticks bus v m w = rw (irq_dispatch-interrupt bus v m w) (interrupt_ticks bus v m)

pub irq_dispatch-IsWired :
    (bus : Bus) (v : ℕ) (m : Machine) → IsWired m → IsWired (irq_dispatch bus v m)
irq_dispatch-IsWired bus v m w =
    let same : (irq_dispatch bus v m).irq_handlers ≡ m.irq_handlers =
      rw (irq_dispatch-interrupt bus v m w) (interrupt_handlers bus v m) in
    record {
      timer = rw same w.timer;
      keys = rw same w.keys;
      others = λ i h. rw same (w.others i h);
    }

pub timer_count-cons :
    (v : ℕ) (vs : List ℕ) → timer_count (v ∷ vs) ≡ (if v == 32 then 1 else 0) + timer_count vs
unfolding timer_count
timer_count-cons v vs = ground arith

pub timer_count-append : (vs ws : List ℕ) → timer_count (vs ++ ws) ≡ timer_count vs + timer_count ws
unfolding timer_count
timer_count-append [] ws = omega arith
timer_count-append (v ∷ vs) ws = ground (arith, timer_count-append vs ws)

-- The tick counter counts the timer's interrupts, and the drivers stay.
pub dispatch_all_ticks :
    (bus : Bus) (vs : List ℕ) (m : Machine)
    → IsWired m
    → m.s_ticks < 2 ^ 64
    → IsWired (dispatch_all bus vs m)
      × ((dispatch_all bus vs m).s_ticks ≡ (m.s_ticks + timer_count vs) % 2 ^ 64)
unfolding dispatch_all
dispatch_all_ticks bus [] m w small = (
  w,
  (let none' : timer_count [] ≡ 0 = (unfold timer_count in refl) in omega (arith, small, none')),
)
dispatch_all_ticks bus (v ∷ vs) m w small =
    let one = irq_dispatch_ticks bus v m w in
    let rest =
      dispatch_all_ticks bus vs (irq_dispatch bus v m) (irq_dispatch-IsWired bus v m w)
        (ground (arith, one, small)) in
    (rest.0, ground (arith, rest.1, one, small, timer_count-cons v vs))

-- The interrupts of rounds, in their order.
unfoldable pub vectors : List Nap → List ℕ
vectors [] = []
vectors (n ∷ ns) = nap_vectors n ++ vectors ns

-- The sleep ends in time: its last round has begun before `ticks` interrupts of the timer.
unfoldable pub InTime : ℕ → ℕ → List Nap → Type 0
InTime ticks counted [] = Unit
InTime ticks counted (n ∷ ns) =
    (counted < ticks) × InTime ticks (counted + timer_count (nap_vectors n)) ns

-- The call returns after the rounds `used`, with `ns` to come at first. `counted` interrupts of the timer
-- have been handled since the call before them.
pub record Woken (bus : Bus) (ticks counted : ℕ) (ns : List Nap) (m : Machine)
    (r : Option (List Nap × Machine)) : Type 0 where
  pub used : List Nap
  pub left : List Nap
  pub split : ns ≡ used ++ left
  pub result : r ≡ some (left, dispatch_all bus (vectors used) m)
  pub enough : ticks ≤ counted + timer_count (vectors used)
  pub in_time : InTime ticks counted used

dispatch_all-append :
    (bus : Bus) (vs ws : List ℕ) (m : Machine)
    → dispatch_all bus (vs ++ ws) m ≡ dispatch_all bus ws (dispatch_all bus vs m)
unfolding dispatch_all
dispatch_all-append bus [] ws m = refl
dispatch_all-append bus (v ∷ vs) ws m = dispatch_all-append bus vs ws (irq_dispatch bus v m)

awake :
    (bus : Bus) (ticks counted : ℕ) (ns : List Nap) (m : Machine)
    → ticks ≤ counted
    → Woken bus ticks counted ns m (some (ns, m))
unfolding dispatch_all vectors InTime
awake bus ticks counted ns m e = record {
  used = [];
  left = ns;
  split = refl;
  result = refl;
  enough = omega (arith, e);
  in_time = tt;
}

timer_count-vectors :
    (n : Nap) (ns : List Nap)
    → timer_count (vectors (n ∷ ns)) ≡ timer_count (nap_vectors n) + timer_count (vectors ns)
unfolding vectors
timer_count-vectors n ns = timer_count-append (nap_vectors n) (vectors ns)

-- A round in front of the others.
Woken-step :
    (bus : Bus) (ticks counted : ℕ) (n : Nap) (ns : List Nap) (m : Machine)
    (r : Option (List Nap × Machine))
    → counted < ticks
    → Woken bus ticks
        (counted + timer_count (nap_vectors n))
        ns
        (dispatch_all bus (nap_vectors n) m)
        r
    → Woken bus ticks counted (n ∷ ns) m r
unfolding InTime vectors
Woken-step bus ticks counted n ns m r early rest = record {
  used = n ∷ rest.used;
  left = rest.left;
  split = ap (λ (l : List Nap). n ∷ l) rest.split;
  result =
      rest.result
      ∙ ap (λ (x : Machine). some (rest.left, x))
          (sym (dispatch_all-append bus (nap_vectors n) (vectors rest.used) m));
  enough = omega (arith, rest.enough, timer_count-vectors n rest.used);
  in_time = (early, rest.in_time);
}

sleep_loop-Woken :
    (bus : Bus) (start ticks counted : ℕ) (ns : List Nap) (m : Machine)
    → IsWired m
    → start < 2 ^ 64
    → m.s_ticks ≡ (start + counted) % 2 ^ 64
    → counted + timer_count (vectors ns) < 2 ^ 64
    → ticks ≤ counted + timer_count (vectors ns)
    → Woken bus ticks counted ns m (sleep_loop bus start ticks ns m)
unfolding sleep_loop
sleep_loop-Woken bus start ticks counted [] m w hs now small enough =
    let none' : timer_count (vectors []) ≡ 0 = (unfold timer_count vectors in refl) in
    let elapsed : sub64 m.s_ticks start ≡ counted = omega (arith, now, hs, small, none') in
    rw (le→ltb (sub64 m.s_ticks start) ticks (omega (arith, none', elapsed, enough)))
      (awake bus ticks counted [] m (omega (arith, none', enough)))
sleep_loop-Woken bus start ticks counted (n ∷ ns) m w hs now small enough =
    let split = timer_count-vectors n ns in
    let elapsed : sub64 m.s_ticks start ≡ counted = omega (arith, now, hs, small) in
    elim (Bool-cases (ltb (sub64 m.s_ticks start) ticks)) [
      | inr past ↦ rw past (awake bus ticks counted (n ∷ ns) m (ground (arith, elapsed, past)))
      | inl halted ↦
          let d = dispatch_all_ticks bus (nap_vectors n) m w (omega (arith, now)) in
          let m' = dispatch_all bus (nap_vectors n) m in
          let rest =
            sleep_loop-Woken bus start ticks (counted + timer_count (nap_vectors n)) ns m' d.0 hs
              (omega (arith, d.1, now)) (omega (arith, small, split))
              (omega (arith, enough, split)) in
          rw halted (Woken-step bus ticks counted n ns m _ (ground (arith, elapsed, halted)) rest)
    ]

-- With the drivers registered, and given that the interrupts up to the first test and those of the rounds
-- have together at least `ticks` from the timer, and fewer than 2 ^ 64, `pit_sleep` returns, wherever in a
-- round they arrive and also when the 64-bit counter wraps around: it does so at the first test of its loop
-- at which at least `ticks` of them have been handled since the call. A tick between the test and `hlt`
-- counts, but does not end that `hlt`, so that a sleep may last one interrupt longer.
pub pit_sleep-Woken :
    (bus : Bus) (ticks : ℕ) (first : List ℕ) (ns : List Nap) (m : Machine)
    → IsWired m
    → m.s_ticks < 2 ^ 64
    → timer_count first + timer_count (vectors ns) < 2 ^ 64
    → ticks ≤ timer_count first + timer_count (vectors ns)
    → Woken bus ticks
        (timer_count first)
        ns
        (dispatch_all bus first m)
        (pit_sleep bus ticks first ns m)
unfolding pit_sleep
pit_sleep-Woken bus ticks first ns m w hm small enough =
    let d = dispatch_all_ticks bus first m w hm in
    sleep_loop-Woken bus m.s_ticks ticks (timer_count first) ns (dispatch_all bus first m) d.0 hm
      d.1 small enough
