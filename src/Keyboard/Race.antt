-- ===== src/Keyboard/Race.antt =====
-- `keyboard_dequeue` interrupted by IRQ1. The handler runs to its end wherever it comes in, so a call
-- is three steps (test, read, write of `k_tail`), and between them any bytes may be enqueued.
use nadir_kernel.Base.{
  ℕ, ◌+◌, ◌%◌, ◌≡◌, ◌≢◌, refl, ◌∙◌, List, [], ◌∷◌, ◌++◌, arith, ◌==◌, if◌then◌else◌, beq_of_ne,
}
use mathlib.Core.Path.{subst}
use nadir_kernel.Keyboard.{Keyboard, enqueue, keyboard_dequeue}

-- The handler has enqueued these bytes, the first one first.
unfoldable pub enqueue_all : List ℕ → Keyboard → Keyboard
enqueue_all [] k = k
enqueue_all (c ∷ cs) k = enqueue_all cs (enqueue c k)

-- `keyboard_dequeue` with the bytes `before` enqueued between its test and its read of the buffer, and
-- `after` between that read and its write of `k_tail`.
unfoldable pub dequeue_interrupted : List ℕ → List ℕ → Keyboard → ℕ × Keyboard
dequeue_interrupted before after k =
    if k.k_head == k.k_tail
    then (0, k)
    else let read = enqueue_all before k in
      let written = enqueue_all after read in
      (read.k_buf read.k_tail, record written { k_tail = (read.k_tail + 1) % 128 })

-- On a ring that is not empty, `enqueue` leaves the oldest byte, its index and the fact.
record Keeps (k k' : Keyboard) : Type 0 where
  tail : k'.k_tail ≡ k.k_tail
  byte : k'.k_buf k.k_tail ≡ k.k_buf k.k_tail
  live : k'.k_head ≢ k'.k_tail

enqueue-Keeps : (c : ℕ) (k : Keyboard) → k.k_head ≢ k.k_tail → Keeps k (enqueue c k)
unfolding enqueue
enqueue-Keeps c k live = ground arith

enqueue_all-Keeps : (cs : List ℕ) (k : Keyboard) → k.k_head ≢ k.k_tail → Keeps k (enqueue_all cs k)
unfolding enqueue_all
enqueue_all-Keeps [] k live = record { tail = refl; byte = refl; live = live }
enqueue_all-Keeps (c ∷ cs) k live =
    let one = enqueue-Keeps c k live in
    let rest = enqueue_all-Keeps cs (enqueue c k) one.live in
    record {
      tail = rest.tail ∙ one.tail;
      byte =
          subst (λ (t : ℕ). (enqueue_all cs (enqueue c k)).k_buf t ≡ (enqueue c k).k_buf t) one.tail
            rest.byte
          ∙ one.byte;
      live = rest.live;
    }

enqueue_all-append :
    (bs cs : List ℕ) (k : Keyboard) → enqueue_all (bs ++ cs) k ≡ enqueue_all cs (enqueue_all bs k)
unfolding enqueue_all
enqueue_all-append [] cs k = refl
enqueue_all-append (b ∷ bs) cs k = enqueue_all-append bs cs (enqueue b k)

-- When the ring is not empty at the test, a call that is interrupted returns the same byte and leaves
-- the same driver state as a call after all the interrupts: the ring needs no lock.
pub dequeue_interrupted-keyboard_dequeue :
    (before after : List ℕ) (k : Keyboard)
    → k.k_head ≢ k.k_tail
    → dequeue_interrupted before after k ≡ keyboard_dequeue (enqueue_all (before ++ after) k)
unfolding dequeue_interrupted keyboard_dequeue
dequeue_interrupted-keyboard_dequeue before after k live =
    let read = enqueue_all before k in
    let first = enqueue_all-Keeps before k live in
    let second = enqueue_all-Keeps after read first.live in
    rw
      (
        enqueue_all-append before after k,
        beq_of_ne k.k_head k.k_tail live,
        beq_of_ne (enqueue_all after read).k_head (enqueue_all after read).k_tail second.live,
        second.tail,
        second.byte,
      )
      refl
