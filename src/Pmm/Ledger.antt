-- ===== src/Pmm/Ledger.antt =====
-- What callers of the frame allocator may rely on over any run of allocations and releases.
use nadir_kernel.Base.{
  ℕ, ◌+◌, ◌/◌, ◌<◌, ◌≡◌, ◌≢◌, refl, Bool, true, false, not, ◌&&◌, ◌||◌, List, [], ◌∷◌, arith, ◌==◌,
  if◌then◌else◌, Bool-cases, inl, inr, length, eq_of_beq, beq_of_ne, ap, ◌⊎◌, zero, suc,
}
use nadir_kernel.Pmm.{Pmm, test_bit, pmm_alloc_frame, pmm_free_frame}
use nadir_kernel.Pmm.Count.{IsCounted}
use nadir_kernel.Pmm.Alloc.{
  Hands, Hands-frees, frees, pmm_alloc_frame-Hands, pmm_alloc_frame-none, pmm_free_frame_lem,
}

-- The allocator, and the addresses that its callers hold.
pub record Ledger : Type 0 where
  pub pmm : Pmm
  pub held : List ℕ

abbrev pub holds : List ℕ → ℕ → Bool
holds [] a = false
holds (b ∷ bs) a = b == a || holds bs a

abbrev pub erase : List ℕ → ℕ → List ℕ
erase [] a = []
erase (b ∷ bs) a = if b == a then bs else b ∷ erase bs a

abbrev pub Distinct : List ℕ → Type 0
Distinct [] = Unit
Distinct (b ∷ bs) = (holds bs b ≡ false) × Distinct bs

-- A caller asks for a frame and keeps it, asks in vain, or gives back one that it holds.
pub data Step : Ledger → Ledger → Type 0 where
  alloc :
      (l : Ledger)
      → (pmm_alloc_frame l.pmm).0 ≢ 0
      → Step l
          (record { pmm = (pmm_alloc_frame l.pmm).1; held = (pmm_alloc_frame l.pmm).0 ∷ l.held })
  out_of_memory :
      (l : Ledger)
      → (pmm_alloc_frame l.pmm).0 ≡ 0
      → Step l (record l { pmm = (pmm_alloc_frame l.pmm).1 })
  free :
      (l : Ledger) (a : ℕ)
      → holds l.held a ≡ true
      → Step l (record { pmm = pmm_free_frame a l.pmm; held = erase l.held a })

pub data Reach (l : Ledger) : Ledger → Type 0 where
  here : Reach l l
  next : {m n : Ledger} → Reach l m → Step m n → Reach l n

-- A held address is the start of a reserved frame of the window other than frame 0.
unfoldable pub good : Pmm → ℕ → Bool
good p a = not (a == 0) && frees p a

-- The frames held are distinct and reserved, frame 0 is reserved and never held, and free and held
-- frames make up `frames`.
pub record IsSafe (frames : ℕ) (l : Ledger) : Type 0 where
  pub counted : IsCounted l.pmm
  pub zero_reserved : test_bit l.pmm.bitmap 0 ≡ true
  pub distinct : Distinct l.held
  pub good_held : (a : ℕ) → holds l.held a ≡ true → good l.pmm a ≡ true
  pub total : l.pmm.g_free + length l.held ≡ frames

erase_head :
    (bs : List ℕ) (c b : ℕ)
    → holds bs c ≡ false
    → holds bs b ≡ (not (c == b) && (c == b || holds bs b))
erase_head bs c b out = elim (Bool-cases (c == b)) [
  | inl e ↦ rw (e, ← eq_of_beq c b e) out
  | inr ne ↦ rw ne
]

holds-erase :
    (bs : List ℕ) (a b : ℕ) → Distinct bs → holds (erase bs a) b ≡ (not (a == b) && holds bs b)
holds-erase [] a b d = ground arith
holds-erase (c ∷ bs) a b d = elim (Bool-cases (c == a)) [
  | inl e ↦ rw e (rw (← eq_of_beq c a e) (erase_head bs c b d.0))
  | inr ne ↦ ground (arith, holds-erase bs a b d.1)
]

Distinct-erase : (bs : List ℕ) (a : ℕ) → Distinct bs → Distinct (erase bs a)
Distinct-erase [] a d = tt
Distinct-erase (c ∷ bs) a d = elim (Bool-cases (c == a)) [
  | inl e ↦ rw e d.1
  | inr ne ↦ rw ne (rw (holds-erase bs a c d.1, d.0) (ground arith), Distinct-erase bs a d.1)
]

length-erase : (bs : List ℕ) (a : ℕ) → holds bs a ≡ true → length (erase bs a) + 1 ≡ length bs
length-erase [] a h = cc
length-erase (c ∷ bs) a h = ground (arith, length-erase bs a)

good-test_bit : (p : Pmm) (a : ℕ) → good p a ≡ true → test_bit p.bitmap (a / 4096) ≡ true
unfolding good frees
good-test_bit p a h = ground arith

-- An address stays good while its frame stays reserved.
good_of :
    (p q : Pmm) (a : ℕ) → good p a ≡ true → test_bit q.bitmap (a / 4096) ≡ true → good q a ≡ true
unfolding good frees
good_of p q a h marked = ground arith

zero_or_pos : (n : ℕ) → (n ≡ 0) ⊎ (0 < n)
zero_or_pos zero = inl refl
zero_or_pos (suc n) = inr (omega arith)

module _ {k g : ℕ} {l : Ledger} {out : ℕ × Pmm} (s : IsSafe k l) (h : Hands l.pmm g out) where
  frame : out.0 / 4096 ≡ g
  frame = omega (arith, h.address)

  g-ne-zero : g ≢ 0
  g-ne-zero e = cc (h.was_free, s.zero_reserved, e)

  good_new : good out.1 out.0 ≡ true
  unfolding good
  good_new =
      let ne = g-ne-zero in
      rw (Hands-frees h, beq_of_ne out.0 0 (λ e. ne (omega (arith, h.address)))) refl

  good_old : (a : ℕ) → good l.pmm a ≡ true → good out.1 a ≡ true
  good_old a ok =
      good_of l.pmm out.1 a ok (rw (h.bits (a / 4096), good-test_bit l.pmm a ok) (ground arith))

  fresh : holds l.held out.0 ≡ false
  fresh = elim (Bool-cases (holds l.held out.0)) [
    | inr new ↦ new
    | inl old ↦
        let marked : test_bit l.pmm.bitmap g ≡ true =
          rw frame at (good-test_bit l.pmm out.0 (s.good_held out.0 old)) in
        cc (h.was_free, marked)
  ]

  alloc-IsSafe : IsSafe k (record { pmm = out.1; held = out.0 ∷ l.held })
  alloc-IsSafe = record {
    counted = h.counted;
    zero_reserved = rw (h.bits 0, s.zero_reserved) (ground arith);
    distinct = (fresh, s.distinct);
    good_held = λ a m. elim (Bool-cases (out.0 == a)) [
      | inl e ↦ rw (← eq_of_beq out.0 a e) good_new
      | inr ne ↦ good_old a (s.good_held a (rw ne at m))
    ];
    total = omega (arith, s.total, h.fewer);
  }

good-frees : (p : Pmm) (a : ℕ) → good p a ≡ true → frees p a ≡ true
unfolding good
good-frees p a h = ground arith

good-frame : (p : Pmm) (a : ℕ) → good p a ≡ true → (not (true && a / 4096 == 0) && true) ≡ true
unfolding good frees
good-frame p a h = ground arith

-- Good addresses that differ start different frames.
good-frame-ne :
    (p : Pmm) (a b : ℕ)
    → good p a ≡ true
    → good p b ≡ true
    → (a == b) ≡ false
    → (not (true && a / 4096 == b / 4096) && true) ≡ true
unfolding good frees
good-frame-ne p a b h k ne = ground arith

erased :
    (bs : List ℕ) (a b : ℕ)
    → Distinct bs
    → holds (erase bs a) b ≡ true
    → ((a == b) ≡ false) × (holds bs b ≡ true)
erased bs a b d m =
    let both : (not (a == b) && holds bs b) ≡ true = rw (← holds-erase bs a b d) m in ground arith

free-IsSafe :
    {k : ℕ} {l : Ledger} (a : ℕ)
    → IsSafe k l
    → holds l.held a ≡ true
    → IsSafe k (record { pmm = pmm_free_frame a l.pmm; held = erase l.held a })
free-IsSafe {k} {l} a s h =
    let (counted, more, _, bits) = pmm_free_frame_lem a l.pmm s.counted in
    let ok = s.good_held a h in
    let acts : frees l.pmm a ≡ true = good-frees l.pmm a ok in
    record {
      counted = counted;
      zero_reserved = rw (bits 0, s.zero_reserved, acts) (good-frame l.pmm a ok);
      distinct = Distinct-erase l.held a s.distinct;
      good_held = λ b m.
          let (other, old) = erased l.held a b s.distinct m in
          let okb = s.good_held b old in
          good_of l.pmm (pmm_free_frame a l.pmm) b okb (
            rw (bits (b / 4096), good-test_bit l.pmm b okb, acts)
              (good-frame-ne l.pmm a b ok okb other));
      total = omega (arith, s.total, (rw acts at more), length-erase l.held a h);
    }

Step-IsSafe : {k : ℕ} {l m : Ledger} → IsSafe k l → Step l m → IsSafe k m
Step-IsSafe s (free l a h) = free-IsSafe a s h
Step-IsSafe s (alloc l ne) = elim (zero_or_pos l.pmm.g_free) [
  | inl z ↦ absurd (ne (ap (λ (r : ℕ × Pmm). r.0) (pmm_alloc_frame-none l.pmm s.counted z)))
  | inr more ↦ alloc-IsSafe s (pmm_alloc_frame-Hands l.pmm s.counted more).1
]
Step-IsSafe s (out_of_memory l e) = elim (zero_or_pos l.pmm.g_free) [
  | inl z ↦ rw (pmm_alloc_frame-none l.pmm s.counted z) s
  | inr more ↦
      let (g, h) = pmm_alloc_frame-Hands l.pmm s.counted more in
      absurd (g-ne-zero s h (omega (arith, h.address)))
]

-- From a safe state every run keeps the frames that callers hold apart, reserved and never 0, and
-- loses no frame.
pub Reach-IsSafe : {k : ℕ} {l m : Ledger} → IsSafe k l → Reach l m → IsSafe k m
Reach-IsSafe s here = s
Reach-IsSafe s (next r st) = Step-IsSafe (Reach-IsSafe s r) st
