-- ===== src/Keyboard/Ring.antt =====
-- The ring of the keyboard driver against a queue of at most 127 bytes.
use nadir_kernel.Base.{
  ℕ, zero, suc, ◌+◌, ◌-◌, ◌%◌, ◌<◌, ◌≡◌, refl, ap, ◌∙◌, true, false, List, [], ◌∷◌, ◌++◌, arith,
  ◌==◌, if◌then◌else◌, update, length, Bool-cases, inl, inr, beq_of_ne, beq_of_eq,
}
use nadir_kernel.Keyboard.{Keyboard, enqueue, keyboard_dequeue, keyboard_has_key}

-- Both indices lie in the buffer.
pub record IsRing (k : Keyboard) : Type 0 where
  pub head : k.k_head < 128
  pub tail : k.k_tail < 128

-- The `n` bytes of the buffer from index `t` on, going round at 128.
unfoldable pub bytes_from : (ℕ → ℕ) → ℕ → ℕ → List ℕ
bytes_from buf t zero = []
bytes_from buf t (suc n) = buf t ∷ bytes_from buf ((t + 1) % 128) n

abbrev pub waiting : Keyboard → ℕ
waiting k = (k.k_head + 128 - k.k_tail) % 128

-- The bytes that wait, oldest first.
unfoldable pub contents : Keyboard → List ℕ
contents k = bytes_from k.k_buf k.k_tail (waiting k)

-- A queue of at most 127 bytes takes a new one at its end, or drops it when full.
unfoldable pub offer : ℕ → List ℕ → List ℕ
offer c q = if length q == 127 then q else q ++ (c ∷ [])

length-bytes_from : (buf : ℕ → ℕ) (t n : ℕ) → length (bytes_from buf t n) ≡ n
unfolding bytes_from
length-bytes_from buf t zero = refl
length-bytes_from buf t (suc n) = ap suc (length-bytes_from buf ((t + 1) % 128) n)

pub length-contents : (k : Keyboard) → length (contents k) ≡ waiting k
unfolding contents
length-contents k = length-bytes_from k.k_buf k.k_tail (waiting k)

-- A write just behind the bytes adds one.
bytes_from-update :
    (buf : ℕ → ℕ) (c n t i : ℕ)
    → t < 128
    → n < 127
    → i ≡ (t + n) % 128
    → bytes_from (update buf i c) t (suc n) ≡ bytes_from buf t n ++ (c ∷ [])
unfolding bytes_from
bytes_from-update buf c zero t i ht hn e = rw (beq_of_eq i t (omega arith))
bytes_from-update buf c (suc n) t i ht hn e = rw (beq_of_ne i t (omega arith)) (
    ap (λ (rest : List ℕ). buf t ∷ rest)
      (bytes_from-update buf c n ((t + 1) % 128) i (omega arith) (omega arith) (omega arith)))

enqueued :
    (c : ℕ) (k : Keyboard)
    → IsRing k
    → ((k.k_head + 1) % 128 == k.k_tail) ≡ false
    → waiting k < 127
    → contents (enqueue c k) ≡ contents k ++ (c ∷ [])
unfolding enqueue contents
enqueued c k v room few =
    let more : ((k.k_head + 1) % 128 + 128 - k.k_tail) % 128 ≡ suc (waiting k) = omega arith in
    rw (room, more)
      (bytes_from-update k.k_buf c (waiting k) k.k_tail k.k_head v.tail few (omega arith))

-- `enqueue` puts the byte behind those that wait, and drops it exactly when 127 wait; the ring stays
-- in bounds.
pub enqueue-offer :
    (c : ℕ) (k : Keyboard)
    → IsRing k
    → (contents (enqueue c k) ≡ offer c (contents k)) × IsRing (enqueue c k)
enqueue-offer c k v = elim (Bool-cases ((k.k_head + 1) % 128 == k.k_tail)) [
  | inl full ↦
      let same : enqueue c k ≡ k = (unfold enqueue in rw full) in
      let all : waiting k ≡ 127 = ground arith in
      rw same ((unfold offer in rw (length-contents k, beq_of_eq (waiting k) 127 all)), v)
  | inr room ↦
      let few : waiting k < 127 = ground arith in
      (
        enqueued c k v room few
            ∙ (unfold offer in rw (length-contents k, beq_of_ne (waiting k) 127 (omega arith))),
        (unfold enqueue in rw room (omega arith)),
      )
]

-- What a call on a ring with these contents returns.
pub data Dequeued (k : Keyboard) : List ℕ → ℕ × Keyboard → Type 0 where
  empty : keyboard_has_key k ≡ false → Dequeued k [] (0, k)
  oldest :
      {c : ℕ} {q : List ℕ} {k' : Keyboard}
      → keyboard_has_key k ≡ true
      → contents k' ≡ q
      → IsRing k'
      → Dequeued k (c ∷ q) (c, k')

bytes_from_pos :
    (buf : ℕ → ℕ) (t n : ℕ)
    → 0 < n
    → bytes_from buf t n ≡ buf t ∷ bytes_from buf ((t + 1) % 128) (n - 1)
unfolding bytes_from
bytes_from_pos buf t zero h = elim h [ ]
bytes_from_pos buf t (suc n) h = ap (λ m. buf t ∷ bytes_from buf ((t + 1) % 128) m) (omega arith)

pub dequeued_none :
    (k : Keyboard)
    → (k.k_head == k.k_tail) ≡ true
    → (contents k ≡ []) × (keyboard_dequeue k ≡ (0, k)) × (keyboard_has_key k ≡ false)
unfolding contents keyboard_dequeue keyboard_has_key
dequeued_none k e =
    let none' : waiting k ≡ 0 = ground arith in (rw none' (unfold bytes_from in refl), rw e, rw e)

pub dequeued_some :
    (k : Keyboard)
    → IsRing k
    → (k.k_head == k.k_tail) ≡ false
    → let k' = record k { k_tail = (k.k_tail + 1) % 128 } in
      (contents k ≡ k.k_buf k.k_tail ∷ contents k')
      × (keyboard_dequeue k ≡ (k.k_buf k.k_tail, k'))
      × (keyboard_has_key k ≡ true)
unfolding contents keyboard_dequeue keyboard_has_key
dequeued_some k v e =
    let less : (k.k_head + 128 - (k.k_tail + 1) % 128) % 128 ≡ waiting k - 1 = ground arith in
    (bytes_from_pos k.k_buf k.k_tail (waiting k) (ground arith) ∙ rw less, rw e, rw e)

-- `keyboard_dequeue` on an empty ring returns 0 and changes nothing; otherwise it returns the oldest
-- byte and leaves the others. The ring stays in bounds, and `keyboard_has_key` tells the two apart.
pub keyboard_dequeue_lem : (k : Keyboard) → IsRing k → Dequeued k (contents k) (keyboard_dequeue k)
keyboard_dequeue_lem k v = elim (Bool-cases (k.k_head == k.k_tail)) [
  | inl none' ↦
      let (nothing, result, key) = dequeued_none k none' in rw (nothing, result) (empty key)
  | inr some' ↦
      let (bytes, result, key) = dequeued_some k v some' in
      rw (bytes, result) (oldest key refl (omega arith))
]
