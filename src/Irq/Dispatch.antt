-- ===== src/Irq/Dispatch.antt =====
-- What an interrupt does once timer and keyboard are set up.
use nadir_kernel.Base.{
  ℕ, ◌-◌, ◌≤◌, ◌<◌, ◌≡◌, refl, true, false, ◌&&◌, ◌||◌, ◌∷◌, none, some, arith, ltb, leb, ◌==◌,
  if◌then◌else◌, add64, Bool-cases, inl, inr, eq_of_beq, beq_of_ne,
}
use nadir_kernel.Io.{Log, Bus, put, outb}
use nadir_kernel.Keyboard.{keyboard_on_irq}
use nadir_kernel.Pic.{pic_eoi}
use nadir_kernel.Irq.{
  on_tick, on_key, Machine, irq_register_handler, pit_on_tick, key_pressed, call_handler,
  irq_dispatch, pit_init, keyboard_init,
}

-- Line 0 has the timer's handler, line 1 the keyboard's, and the others have none.
pub record IsWired (m : Machine) : Type 0 where
  pub timer : m.irq_handlers 0 ≡ some on_tick
  pub keys : m.irq_handlers 1 ≡ some on_key
  pub others : (i : ℕ) → 2 ≤ i → m.irq_handlers i ≡ none

-- `pit_init` and `keyboard_init`, in this order and on a machine without handlers, set up the two
-- handlers.
pub keyboard_init-pit_init-IsWired :
    (bus : Bus) (m : Machine)
    → m.s_initialized ≡ 0
    → ((i : ℕ) → m.irq_handlers i ≡ none)
    → IsWired (keyboard_init bus (pit_init m))
unfolding keyboard_init pit_init irq_register_handler
keyboard_init-pit_init-IsWired bus m h free = rw h (record {
  timer = refl;
  keys = refl;
  others = λ i hi. rw (beq_of_ne 1 i (omega arith), beq_of_ne 0 i (omega arith)) (free i);
})

-- The ends of interrupt for a line, the last one first.
unfoldable pub acknowledged : ℕ → Log → Log
acknowledged irq log =
    if ltb irq 8 then put 0x20 0x20 ∷ log else put 0x20 0x20 ∷ put 0xa0 0x20 ∷ log

-- What the handler of a vector does, without the end of interrupt.
unfoldable pub handled : Bus → ℕ → Machine → Machine
handled bus vector m =
    if vector == 32
    then record m { s_ticks = add64 m.s_ticks 1 }
    else if vector == 33
    then (let (log', k') = keyboard_on_irq bus m.log m.keyboard in
        record m { log = log'; keyboard = k' })
    else m

unfoldable pub interrupt : Bus → ℕ → Machine → Machine
interrupt bus vector m =
    if leb 32 vector && ltb vector 48
    then record (handled bus vector m) {
      log = acknowledged (vector - 32) (handled bus vector m).log;
    }
    else m

pic_eoi-acknowledged : (irq : ℕ) (log : Log) → irq < 16 → pic_eoi irq log ≡ acknowledged irq log
unfolding pic_eoi outb acknowledged
pic_eoi-acknowledged irq log h = ground arith

call_handler-handled :
    (bus : Bus) (vector : ℕ) (m : Machine)
    → IsWired m
    → 32 ≤ vector
    → call_handler bus (m.irq_handlers (vector - 32)) m ≡ handled bus vector m
unfolding call_handler handled pit_on_tick key_pressed
call_handler-handled bus vector m w h = elim (Bool-cases (vector == 32)) [
  | inl tick ↦ rw (eq_of_beq vector 32 tick, w.timer)
  | inr no_tick ↦ elim (Bool-cases (vector == 33)) [
    | inl key ↦ rw (eq_of_beq vector 33 key, w.keys)
    | inr no_key ↦ rw (no_tick, no_key, w.others (vector - 32) (ground arith))
  ]
]

-- With the handlers set up, a vector from 32 to 47 runs the handler of its line, if it has one, and then
-- sends the end of interrupt to the controllers the line goes through; any other vector does nothing.
-- The timer's line counts one tick, the keyboard's line hands one scancode to the keyboard driver.
pub irq_dispatch-interrupt :
    (bus : Bus) (vector : ℕ) (m : Machine)
    → IsWired m
    → irq_dispatch bus vector m ≡ interrupt bus vector m
unfolding irq_dispatch interrupt
irq_dispatch-interrupt bus vector m w = elim (Bool-cases (leb 32 vector && ltb vector 48)) [
  | inl line ↦
      let low : (ltb vector 32 || leb 48 vector) ≡ false = ground arith in
      rw
        (
          line,
          low,
          call_handler-handled bus vector m w (ground arith),
          pic_eoi-acknowledged (vector - 32) (handled bus vector m).log (ground arith),
        )
        refl
  | inr other ↦
      let off : (ltb vector 32 || leb 48 vector) ≡ true = ground arith in rw (other, off) refl
]
