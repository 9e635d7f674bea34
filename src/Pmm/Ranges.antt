-- ===== src/Pmm/Ranges.antt =====
-- The loops of pmm.c over a range of frames: which bits they change, and the counters.
use nadir_kernel.Base.{
  ℕ, zero, suc, ◌+◌, ◌-◌, ◌*◌, ◌/◌, ◌≤◌, ◌<◌, ◌^◌, ◌≡◌, refl, Bool, false, not, ◌&&◌, ◌||◌, arith,
  ltb, leb, ◌==◌, if◌then◌else◌, Bool-cases, inl, inr, eq_of_beq, ◌∙◌,
}
use nadir_kernel.Pmm.{
  Pmm, test_bit, take_frame, reserve_frames, range_end, clip_end, reserve_range, pmm_max_frames,
}
use nadir_kernel.Pmm.Bitmap.{test_bit-set_bit, set_bit-IsBytes}
use nadir_kernel.Pmm.Count.{IsCounted, clear_count-le, clear_count-set_bit}

-- `first ≤ f < first + n`
abbrev pub within : ℕ → ℕ → ℕ → Bool
within first n f = leb first f && ltb f (first + n)

within-suc : (first n f : ℕ) → within first (suc n) f ≡ (first == f || within (first + 1) n f)
within-suc first n f = ground arith

pub take_frame-IsCounted :
    (p : Pmm) (f : ℕ)
    → IsCounted p
    → f < pmm_max_frames
    → test_bit p.bitmap f ≡ false
    → IsCounted (take_frame f p) × ((take_frame f p).g_free + 1 ≡ p.g_free)
unfolding take_frame
take_frame-IsCounted p f c h free =
    let less = clear_count-set_bit p.bitmap f pmm_max_frames c.bytes h free in
    let most = clear_count-le p.bitmap pmm_max_frames in
    let counted = c.counted in
    (record { bytes = set_bit-IsBytes p.bitmap f c.bytes; counted = omega arith }, omega arith)

-- What a range loop leaves: every bit is the old one or the range's, the counters agree, and
-- `g_usable` is as it was.
pub record Reserves (p : Pmm) (inside : ℕ → Bool) (q : Pmm) : Type 0 where
  pub counted : IsCounted q
  pub bits : (g : ℕ) → test_bit q.bitmap g ≡ (inside g || test_bit p.bitmap g)
  pub usable : q.g_usable ≡ p.g_usable
  pub fewer : q.g_free ≤ p.g_free

pub Reserves-none :
    {p : Pmm} (inside : ℕ → Bool) → IsCounted p → ((g : ℕ) → inside g ≡ false) → Reserves p inside p
Reserves-none inside c out = record {
  counted = c;
  bits = λ g. ground (arith, out g);
  usable = refl;
  fewer = omega arith;
}

pub Reserves-ext :
    {p q : Pmm} (inside outer : ℕ → Bool)
    → ((g : ℕ) → outer g ≡ inside g)
    → Reserves p inside q
    → Reserves p outer q
Reserves-ext inside outer e r = record {
  counted = r.counted;
  bits = λ g. ground (arith, e g, r.bits g);
  usable = r.usable;
  fewer = r.fewer;
}

pub Reserves-trans :
    {p q s : Pmm} (inside other : ℕ → Bool)
    → Reserves p inside q
    → Reserves q other s
    → Reserves p (λ g. other g || inside g) s
Reserves-trans inside other r t = record {
  counted = t.counted;
  bits = λ g. ground (arith, r.bits g, t.bits g);
  usable = t.usable ∙ r.usable;
  fewer = omega (arith, r.fewer, t.fewer);
}

reserve_one :
    (p : Pmm) (f : ℕ)
    → IsCounted p
    → f < pmm_max_frames
    → Reserves p (λ g. f == g) (if test_bit p.bitmap f then p else take_frame f p)
reserve_one p f c h = elim (Bool-cases (test_bit p.bitmap f)) [
  | inl used ↦ rw used (record {
    counted = c;
    bits =
        λ g. elim (Bool-cases (f == g)) [ inl e ↦ rw (e, ← eq_of_beq f g e) used | inr ne ↦ rw ne ];
    usable = refl;
    fewer = omega arith;
  })
  | inr free ↦ rw free (
      let (counted, less) = take_frame-IsCounted p f c h free in
      record {
        counted = counted;
        bits = λ g. unfold take_frame in test_bit-set_bit p.bitmap f g c.bytes;
        usable = unfold take_frame in refl;
        fewer = omega (arith, less);
      })
]

pub reserve_frames-Reserves :
    (n f : ℕ) (p : Pmm)
    → IsCounted p
    → f + n ≤ pmm_max_frames
    → Reserves p (within f n) (reserve_frames n f p)
unfolding reserve_frames
reserve_frames-Reserves zero f p c h = Reserves-none (within f 0) c (λ g. ground arith)
reserve_frames-Reserves (suc n) f p c h =
    let one = reserve_one p f c (omega arith) in
    Reserves-ext (λ g. within (f + 1) n g || f == g) (within f (suc n)) (λ g. ground arith)
      (Reserves-trans (λ g. f == g) (within (f + 1) n) one
        (reserve_frames-Reserves n (f + 1) (if test_bit p.bitmap f then p else take_frame f p)
          one.counted (omega arith)))

-- The frames that `reserve_range base len` marks: those that the range reaches into and that end
-- no later than it does. `base + len` is not cut to 64 bits here.
unfoldable pub reserves : ℕ → ℕ → ℕ → Bool
reserves base len f =
    not (len == 0)
    && ltb base ((f + 1) * 4096)
    && leb ((f + 1) * 4096) (base + len)
    && ltb f pmm_max_frames

reserves-within :
    (base len f : ℕ)
    → base < pmm_max_frames * 4096
    → len < 2 ^ 64
    → (len == 0) ≡ false
    → reserves base len f
      ≡ within (base / 4096) (clip_end (range_end base len) / 4096 - base / 4096) f
unfolding reserves clip_end range_end
reserves-within base len f hb hl ne = ground arith

pub clip_end-le : (end : ℕ) → clip_end end / 4096 ≤ pmm_max_frames
unfolding clip_end
clip_end-le end = ground arith

-- `reserve_range` reserves the frames that the range reaches into and that end no later than it does,
-- saturating where `base + len` passes 2 ^ 64, and no other; it keeps bitmap and counter in step and
-- leaves `g_usable` alone.
pub reserve_range-Reserves :
    (base len : ℕ) (p : Pmm)
    → IsCounted p
    → len < 2 ^ 64
    → Reserves p (reserves base len) (reserve_range base len p)
unfolding reserve_range
reserve_range-Reserves base len p c h = elim (Bool-cases (len == 0)) [
  | inl z ↦ rw z (Reserves-none (reserves base len) c (λ g. unfold reserves in rw z))
  | inr ne ↦ rw ne (elim (Bool-cases (leb (pmm_max_frames * 4096) base)) [
    | inl high ↦
        rw high (Reserves-none (reserves base len) c (λ g. unfold reserves in ground arith))
    | inr low ↦ rw low (
        Reserves-ext _ (reserves base len) (λ g. reserves-within base len g (ground arith) h ne)
          (reserve_frames-Reserves (clip_end (range_end base len) / 4096 - base / 4096)
            (base / 4096) p c (ground (arith, clip_end-le (range_end base len)))))
  ])
]
