-- ===== src/Irq/Examples.antt =====
-- The theorems on interrupts on a concrete machine.
use nadir_kernel.Base.{List, ◌-◌, ◌^◌, ◌≡◌, refl, [], ◌∷◌, none, some, arith, ◌==◌, if◌then◌else◌}
use nadir_kernel.Io.{Bus}
use nadir_kernel.Keyboard.{Keyboard}
use nadir_kernel.Irq.{on_tick, on_key, Machine, irq_dispatch, dispatch_all, Nap, pit_sleep}
use nadir_kernel.Irq.Dispatch.{IsWired, interrupt, irq_dispatch-interrupt}
use nadir_kernel.Irq.Sleep.{timer_count, vectors, Woken, pit_sleep-Woken}

-- Every port answers with the code of A.
abbrev ports : Bus
ports log port = 0x1e

abbrev no_keys : Keyboard
no_keys = record { k_buf = λ i. 0; k_head = 0; k_tail = 0; k_shift = 0; k_caps = 0; k_e0 = 0 }

-- The machine before any driver is set up.
abbrev reset : Machine
reset = record {
  s_ticks = 2 ^ 64 - 1;
  s_initialized = 0;
  irq_handlers = λ i. none;
  keyboard = no_keys;
  log = [];
}

abbrev running : Machine
running = record reset {
  irq_handlers = λ i. if i == 0 then some on_tick else if i == 1 then some on_key else none;
}

running-IsWired : IsWired running
running-IsWired = record { timer = refl; keys = refl; others = λ i h. ground arith }

irq_dispatch-interrupt_example : irq_dispatch ports 33 running ≡ interrupt ports 33 running
irq_dispatch-interrupt_example = irq_dispatch-interrupt ports 33 running running-IsWired

-- The counter wraps around at the first tick. The second comes between the test and `hlt`, which a key
-- then ends.
abbrev naps : List Nap
naps =
    record { missed = []; wakes = 32; woken = [] }
    ∷ record { missed = 32 ∷ []; wakes = 33; woken = [] }
    ∷ []

two_ticks : timer_count (vectors naps) ≡ 2
unfolding timer_count vectors
two_ticks = refl

none_first : timer_count [] ≡ 0
unfolding timer_count
none_first = refl

pit_sleep-Woken_example :
    Woken ports 2
      (timer_count [])
      naps
      (dispatch_all ports [] running)
      (pit_sleep ports 2 [] naps running)
pit_sleep-Woken_example =
    pit_sleep-Woken ports 2 [] naps running running-IsWired (omega arith)
      (omega (arith, two_ticks, none_first)) (omega (arith, two_ticks, none_first))
