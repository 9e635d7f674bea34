-- ===== src/Kmalloc/Pull.antt =====
-- The loop of `kmalloc_init`: the frames that it takes from the frame allocator.
use nadir_kernel.Base.{
  ℕ, zero, suc, ◌+◌, ◌*◌, ◌/◌, ◌%◌, ◌≤◌, ◌<◌, ◌≡◌, ◌≢◌, refl, Bool, true, false, not, ◌&&◌, ◌||◌,
  arith, ltb, leb, ◌==◌, Bool-cases, ◌⊎◌, inl, inr, add64, beq_of_ne, beq_of_eq, eq_of_beq,
}
use nadir_kernel.Pmm.{Pmm, test_bit, pmm_alloc_frame, pmm_max_frames}
use nadir_kernel.Pmm.Count.{IsCounted}
use nadir_kernel.Pmm.Alloc.{Hands, pmm_alloc_frame-Hands, pmm_alloc_frame-none}
use nadir_kernel.Kmalloc.{init_loop}

-- `f`, …, `f + i - 1`
abbrev pub inside : ℕ → ℕ → ℕ → Bool
inside f i g = leb f g && ltb g (f + i)

-- `i` frames from `addr` on were free in `before` and are reserved in `now`.
pub record Owns (before now : Pmm) (addr i : ℕ) : Type 0 where
  pub aligned : addr % 4096 ≡ 0
  pub live : 0 < addr
  pub some' : 0 < i
  pub fits : addr / 4096 + i ≤ pmm_max_frames
  pub were_free : (g : ℕ) → (inside (addr / 4096) i g && test_bit before.bitmap g) ≡ false
  pub are_reserved : (g : ℕ) → (inside (addr / 4096) i g && not (test_bit now.bitmap g)) ≡ false

-- The frame allocator has gone from `before` to `now`, and `spare` of the frames that it gave out on the
-- way are not in the run of `i` frames at `addr`.
pub record Pulled (before : Pmm) (addr i spare : ℕ) (now : Pmm) : Type 0 where
  pub counted : IsCounted now
  pub zero_reserved : test_bit now.bitmap 0 ≡ true
  pub grows : (g : ℕ) → (test_bit before.bitmap g && not (test_bit now.bitmap g)) ≡ false
  pub frames : now.g_free + i + spare ≡ before.g_free
  pub owns : ((addr ≡ 0) × (i ≡ 0)) ⊎ Owns before now addr i

inside_last : (f i k : ℕ) → inside f (i + 1) k ≡ (inside f i k || f + i == k)
inside_last f i k = ground arith

inside_none : (f i k : ℕ) (b : Bool) → i ≡ 0 → (inside f i k && b) ≡ false
inside_none f i k b e = ground arith

zero_or_pos : (n : ℕ) → (n ≡ 0) ⊎ (0 < n)
zero_or_pos zero = inl refl
zero_or_pos (suc n) = inr (omega arith)

module _ {before p : Pmm} {addr i g : ℕ} {out : ℕ × Pmm} (s : Pulled before addr i 0 p)
    (h : Hands p g out) where
  g-ne-zero : g ≢ 0
  g-ne-zero e = cc (h.was_free, s.zero_reserved, e)

  was_free_before : test_bit before.bitmap g ≡ false
  was_free_before = ground (arith, s.grows g, h.was_free)

  zero_after : test_bit out.1.bitmap 0 ≡ true
  zero_after = rw (h.bits 0, s.zero_reserved) (ground arith)

  grows_after : (k : ℕ) → (test_bit before.bitmap k && not (test_bit out.1.bitmap k)) ≡ false
  grows_after k = ground (arith, s.grows k, h.bits k)

  were_free_after :
      (f j k : ℕ)
      → f + j ≡ g
      → (inside f j k && test_bit before.bitmap k) ≡ false
      → (inside f (j + 1) k && test_bit before.bitmap k) ≡ false
  were_free_after f j k e old =
      rw (inside_last f j k, e)
        (elim (Bool-cases (g == k)) [
          | inl at ↦ rw (← eq_of_beq g k at, was_free_before) (ground arith)
          | inr off ↦ rw off (ground arith)
        ])

  are_reserved_after :
      (f j k : ℕ)
      → f + j ≡ g
      → (inside f j k && not (test_bit p.bitmap k)) ≡ false
      → (inside f (j + 1) k && not (test_bit out.1.bitmap k)) ≡ false
  are_reserved_after f j k e old = rw (inside_last f j k, e) (ground (arith, h.bits k))

  -- The frame handed out does not continue the run.
  stops : Owns before p addr i → Pulled before addr i 1 out.1
  stops o = record {
    counted = h.counted;
    zero_reserved = zero_after;
    grows = grows_after;
    frames = omega (arith, s.frames, h.fewer);
    owns = inr (record {
      aligned = o.aligned;
      live = o.live;
      some' = o.some';
      fits = o.fits;
      were_free = o.were_free;
      are_reserved = λ k. ground (arith, o.are_reserved k, h.bits k);
    });
  }

  -- It is the first frame.
  starts : addr ≡ 0 → i ≡ 0 → Pulled before out.0 (i + 1) 0 out.1
  starts e e' = record {
    counted = h.counted;
    zero_reserved = zero_after;
    grows = grows_after;
    frames = omega (arith, s.frames, h.fewer);
    owns = inr (record {
      aligned = omega (arith, h.address);
      live = let ne = g-ne-zero in omega (arith, h.address);
      some' = omega arith;
      fits = omega (arith, h.address, h.inside);
      were_free = λ k.
          were_free_after (out.0 / 4096) i k (omega (arith, h.address)) (inside_none _ i k _ e');
      are_reserved = λ k.
          are_reserved_after (out.0 / 4096) i k (omega (arith, h.address)) (inside_none _ i k _ e');
    });
  }

  next_frame : out.0 ≡ add64 addr (i * 4096) → Owns before p addr i → addr / 4096 + i ≡ g
  next_frame e o = omega (arith, h.address, h.inside, o.aligned, o.fits, e)

  -- It continues the run.
  extends :
      out.0 ≡ add64 addr (i * 4096) → Owns before p addr i → Pulled before addr (i + 1) 0 out.1
  extends e o = record {
    counted = h.counted;
    zero_reserved = zero_after;
    grows = grows_after;
    frames = omega (arith, s.frames, h.fewer);
    owns = inr (record {
      aligned = o.aligned;
      live = o.live;
      some' = omega arith;
      fits = omega (arith, next_frame e o, h.inside);
      were_free = λ k. were_free_after (addr / 4096) i k (next_frame e o) (o.were_free k);
      are_reserved = λ k. are_reserved_after (addr / 4096) i k (next_frame e o) (o.are_reserved k);
    });
  }

-- What the loop leaves, from the state that `before` has come to.
pub record Result (before : Pmm) (out : ℕ × ℕ × Pmm) (bound : ℕ) : Type 0 where
  pub spare : ℕ
  pub pulled : Pulled before out.0 out.1 spare out.2
  pub spare_one : spare ≤ 1
  pub most : out.1 ≤ bound

Result-stop :
    {before : Pmm} {addr i : ℕ} {q : Pmm} (spare bound : ℕ)
    → Pulled before addr i spare q
    → spare ≤ 1
    → i ≤ bound
    → Result before (addr, i, q) bound
Result-stop spare bound s a b = record { spare = spare; pulled = s; spare_one = a; most = b }

pub init_loop_lem :
    (n i addr : ℕ) (before p : Pmm)
    → Pulled before addr i 0 p
    → Result before (init_loop n i addr p) (i + n)
unfolding init_loop
init_loop_lem zero i addr before p s = Result-stop 0 (i + 0) s (omega arith) (omega arith)
init_loop_lem (suc n) i addr before p s = elim (zero_or_pos p.g_free) [
  | inl z ↦
      rw (pmm_alloc_frame-none p s.counted z)
        (Result-stop 0 (i + suc n) s (omega arith) (omega arith))
  | inr more ↦
      let (g, h) = pmm_alloc_frame-Hands p s.counted more in
      let out = pmm_alloc_frame p in
      let pos = g-ne-zero s h in
      let live : (out.0 == 0) ≡ false = beq_of_ne out.0 0 (omega (arith, h.address)) in
      let bound : i + 1 + n ≡ i + suc n = omega arith in
      rw live (elim s.owns [
        | inl (a, z) ↦
            rw (← bound, beq_of_eq addr 0 a)
              (init_loop_lem n (i + 1) out.0 before out.1 (starts s h a z))
        | inr o ↦
            rw (beq_of_ne addr 0 (let l = o.live in omega arith))
              (elim (Bool-cases (out.0 == add64 addr (i * 4096))) [
                | inl e ↦
                    rw (e, ← bound)
                      (init_loop_lem n (i + 1) addr before out.1 (extends s h (eq_of_beq _ _ e) o))
                | inr stop ↦
                    rw stop (Result-stop 1 (i + suc n) (stops s h o) (omega arith) (omega arith))
              ])
      ])
]
