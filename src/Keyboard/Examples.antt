-- ===== src/Keyboard/Examples.antt =====
-- The theorems on the keyboard driver at concrete keys.
use nadir_kernel.Base.{◌≡◌, refl, [], ◌∷◌, arith}
use nadir_kernel.Io.{Bus, got}
use nadir_kernel.Keyboard.{
  Keyboard, enqueue, on_code, k_unshifted, k_shifted, translate, keyboard_on_irq, keyboard_dequeue,
}
use nadir_kernel.Keyboard.Ring.{
  IsRing, bytes_from, contents, offer, Dequeued, enqueue-offer, keyboard_dequeue_lem,
}
use nadir_kernel.Keyboard.Race.{
  enqueue_all, dequeue_interrupted, dequeue_interrupted-keyboard_dequeue,
}
use nadir_kernel.Keyboard.Typing.{IsDriver, view, type_code, keyboard_on_irq-type_code}

-- One byte waits at the end of the buffer, and Shift is held.
abbrev holding : Keyboard
holding = record { k_buf = λ i. b'x'; k_head = 0; k_tail = 127; k_shift = 1; k_caps = 0; k_e0 = 0 }

-- The controller always answers with the code of A.
abbrev key_a : Bus
key_a log port = 0x1e

typed_a : contents (on_code 0x1e holding) ≡ b'x' ∷ b'A' ∷ []
unfolding contents bytes_from on_code translate k_unshifted k_shifted enqueue
typed_a = refl

enqueue-offer_example :
    (contents (enqueue b'q' holding) ≡ offer b'q' (contents holding))
    × IsRing (enqueue b'q' holding)
enqueue-offer_example = enqueue-offer b'q' holding (omega arith)

keyboard_dequeue_lem_example : Dequeued holding (contents holding) (keyboard_dequeue holding)
keyboard_dequeue_lem_example = keyboard_dequeue_lem holding (omega arith)

dequeue_interrupted-keyboard_dequeue_example :
    dequeue_interrupted (b'a' ∷ []) (b'b' ∷ b'c' ∷ []) holding
    ≡ keyboard_dequeue (enqueue_all (b'a' ∷ b'b' ∷ b'c' ∷ []) holding)
dequeue_interrupted-keyboard_dequeue_example =
    dequeue_interrupted-keyboard_dequeue (b'a' ∷ []) (b'b' ∷ b'c' ∷ []) holding (omega arith)

keyboard_on_irq-type_code_example :
    let (log', k') = keyboard_on_irq key_a [] holding in
    (log' ≡ got 0x60 0x1e ∷ []) × (view k' ≡ type_code 0x1e (view holding)) × IsDriver k'
keyboard_on_irq-type_code_example = keyboard_on_irq-type_code key_a [] holding (omega arith)
