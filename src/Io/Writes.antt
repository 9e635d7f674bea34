-- ===== src/Io/Writes.antt =====
-- What a piece of code adds to the port log: which ports it writes, and what goes out on the serial
-- line.
use Prim.Native.Nat.{bit_and}
use nadir_kernel.Base.{
  ℕ, ◌≡◌, ◌≢◌, refl, ap, ◌∙◌, sym, Bool, true, false, List, [], ◌∷◌, ◌++◌, ◌==◌, if◌then◌else◌,
  arith, eq_of_beq, Bool-cases, inl, inr,
}
use nadir_kernel.Io.{Log, put, got}
use mathlib.Core.Path.{subst}
use mathlib.Core.List.{append-nil, append_assoc}

-- `log'` is `log` with reads and with writes to ports that are `allowed`.
pub data Extends (allowed : ℕ → Bool) (log : Log) : Log → Type 0 where
  same : Extends allowed log log
  read : {log' : Log} (p v : ℕ) → Extends allowed log log' → Extends allowed log (got p v ∷ log')
  write :
      {log' : Log} (p v : ℕ)
      → allowed p ≡ true
      → Extends allowed log log'
      → Extends allowed log (put p v ∷ log')

pub Extends-trans :
    {allowed : ℕ → Bool} {a b c : Log}
    → Extends allowed a b
    → Extends allowed b c
    → Extends allowed a c
Extends-trans ab same = ab
Extends-trans ab (read p v bc) = read p v (Extends-trans ab bc)
Extends-trans ab (write p v ok bc) = write p v ok (Extends-trans ab bc)

pub Extends-weaken :
    {narrow wide : ℕ → Bool} {a b : Log}
    → ((p : ℕ) → narrow p ≡ true → wide p ≡ true)
    → Extends narrow a b
    → Extends wide a b
Extends-weaken h same = same
Extends-weaken h (read p v r) = read p v (Extends-weaken h r)
Extends-weaken h (write p v ok r) = write p v (h p ok) (Extends-weaken h r)

-- The last byte written to a port, 0 if there is none.
unfoldable pub last_put : ℕ → Log → ℕ
last_put port [] = 0
last_put port (put p v ∷ log) = if p == port then v else last_put port log
last_put port (got p v ∷ log) = last_put port log

pub last_put-Extends :
    {allowed : ℕ → Bool} {log log' : Log} (port : ℕ)
    → allowed port ≡ false
    → Extends allowed log log'
    → last_put port log' ≡ last_put port log
unfolding last_put
last_put-Extends port h same = refl
last_put-Extends port h (read p v r) = last_put-Extends port h r
last_put-Extends {allowed} port h (write p v ok r) = elim (Bool-cases (p == port)) [
  | inl e ↦ ground (arith, clash allowed p port e ok h)
  | inr ne ↦ rw ne (last_put-Extends port h r)
]
  where
    clash : (f : ℕ → Bool) (p q : ℕ) → (p == q) ≡ true → f p ≡ true → f q ≡ false → false ≡ true
    clash f p q e t n = sym n ∙ ap f (sym (eq_of_beq p q e)) ∙ t

-- Bytes go out on the serial line, each right after a read of the line status register (port 0x3fd)
-- whose bit 5 says that the transmitter is empty. Other ports may be read and written in between.
pub data Transmits (log : Log) : List ℕ → Log → Type 0 where
  idle : Transmits log [] log
  reads :
      {bs : List ℕ} {log' : Log} (p v : ℕ)
      → Transmits log bs log'
      → Transmits log bs (got p v ∷ log')
  writes :
      {bs : List ℕ} {log' : Log} (p v : ℕ)
      → p ≢ 0x3f8
      → Transmits log bs log'
      → Transmits log bs (put p v ∷ log')
  byte :
      {bs bs' : List ℕ} {log' : Log} (status c : ℕ)
      → (bit_and status 0x20 == 0) ≡ false
      → bs' ≡ bs ++ (c ∷ [])
      → Transmits log bs log'
      → Transmits log bs' (put 0x3f8 c ∷ got 0x3fd status ∷ log')

pub Transmits-trans :
    {a b c : Log} {bs cs : List ℕ} → Transmits a bs b → Transmits b cs c → Transmits a (bs ++ cs) c
Transmits-trans {a} {b} {bs = bs} ab idle =
    subst (λ (l : List ℕ). Transmits a l b) (sym (append-nil bs)) ab
Transmits-trans ab (reads p v bc) = reads p v (Transmits-trans ab bc)
Transmits-trans ab (writes p v ne bc) = writes p v ne (Transmits-trans ab bc)
Transmits-trans {bs = bs} ab (byte {bs = cs} status c ready e bc) =
    byte status c ready (ap (λ (l : List ℕ). bs ++ l) e ∙ sym (append_assoc bs cs (c ∷ [])))
      (Transmits-trans ab bc)

pub Transmits-Extends :
    {allowed : ℕ → Bool} {log log' : Log}
    → allowed 0x3f8 ≡ false
    → Extends allowed log log'
    → Transmits log [] log'
Transmits-Extends h same = idle
Transmits-Extends h (read p v r) = reads p v (Transmits-Extends h r)
Transmits-Extends {allowed} h (write p v ok r) =
    writes p v (λ e. absurd_true (sym h ∙ ap allowed (sym e) ∙ ok)) (Transmits-Extends h r)
  where
    absurd_true : false ≡ true → ⊥
    absurd_true e = cc
