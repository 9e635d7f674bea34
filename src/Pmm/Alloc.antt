-- ===== src/Pmm/Alloc.antt =====
-- `pmm_alloc_frame` and `pmm_free_frame`.
use nadir_kernel.Base.{
  ℕ, zero, suc, ◌+◌, ◌*◌, ◌/◌, ◌%◌, ◌≤◌, ◌<◌, ◌≡◌, refl, Bool, true, false, not, ◌&&◌, ◌||◌, arith,
  ltb, ◌==◌, if◌then◌else◌, Bool-cases, ◌⊎◌, inl, inr, eq_of_beq, ltb→lt, add64, lt→ltb, beq_of_eq,
  ◌∙◌,
}
use nadir_kernel.Pmm.{
  Pmm, test_bit, clear_bit, take_frame, alloc_from, pmm_alloc_frame, pmm_free_frame, pmm_max_frames,
}
use nadir_kernel.Pmm.Bitmap.{test_bit-set_bit, test_bit-clear_bit, clear_bit-IsBytes}
use nadir_kernel.Pmm.Count.{
  IsCounted, clear_count-le, clear_count-clear_bit, clear_count-full, clear_count-pos,
}
use nadir_kernel.Pmm.Ranges.{take_frame-IsCounted}

-- The search of `alloc_from n frame p` stops at `g`, the first free frame.
record FirstFree (frame n : ℕ) (p : Pmm) (g : ℕ) : Type 0 where
  above : frame ≤ g
  below : g < frame + n
  free : test_bit p.bitmap g ≡ false
  first : (h : ℕ) → frame ≤ h → h < g → test_bit p.bitmap h ≡ true
  result : alloc_from n frame p ≡ (g * 4096, take_frame g p)

record NoneFree (frame n : ℕ) (p : Pmm) : Type 0 where
  used : (h : ℕ) → frame ≤ h → h < frame + n → test_bit p.bitmap h ≡ true
  result : alloc_from n frame p ≡ (0, p)

later : (f h : ℕ) → f ≤ h → (f == h) ≡ false → f + 1 ≤ h
later f h le ne = ground arith

alloc_from_lem : (n frame : ℕ) (p : Pmm) → NoneFree frame n p ⊎ ((g : ℕ) × FirstFree frame n p g)
alloc_from_lem zero f p =
    inl (record { used = λ h a b. absurd (omega arith); result = unfold alloc_from in refl })
alloc_from_lem (suc n) f p = elim (Bool-cases (test_bit p.bitmap f)) [
  | inr free ↦ inr (
    f,
    record {
      above = omega arith;
      below = omega arith;
      free = free;
      first = λ h a b. absurd (omega arith);
      result = unfold alloc_from in rw free;
    },
  )
  | inl used ↦ elim (alloc_from_lem n (f + 1) p) [
    | inl none ↦ inl (record {
      used = λ h a b. elim (Bool-cases (f == h)) [
        | inl e ↦ rw (← eq_of_beq f h e) used
        | inr ne ↦ none.used h (later f h a ne) (omega arith)
      ];
      result = unfold alloc_from in rw (used, none.result);
    })
    | inr (g, found) ↦ inr (
      g,
      record {
        above = omega (arith, found.above);
        below = omega (arith, found.below);
        free = found.free;
        first = λ h a b. elim (Bool-cases (f == h)) [
          | inl e ↦ rw (← eq_of_beq f h e) used
          | inr ne ↦ found.first h (later f h a ne) b
        ];
        result = unfold alloc_from in rw (used, found.result);
      },
    )
  ]
]

-- What handing out frame `g` means: it was the lowest free one, it is now reserved and no other
-- bit moved, and the counter went down by one.
pub record Hands (p : Pmm) (g : ℕ) (out : ℕ × Pmm) : Type 0 where
  pub address : out.0 ≡ g * 4096
  pub inside : g < pmm_max_frames
  pub was_free : test_bit p.bitmap g ≡ false
  pub lowest : (h : ℕ) → (ltb h g && not (test_bit p.bitmap h)) ≡ false
  pub bits : (h : ℕ) → test_bit out.1.bitmap h ≡ (g == h || test_bit p.bitmap h)
  pub counted : IsCounted out.1
  pub fewer : out.1.g_free + 1 ≡ p.g_free
  pub usable : out.1.g_usable ≡ p.g_usable

-- While the counter is positive `pmm_alloc_frame` hands out the lowest free frame.
pub pmm_alloc_frame-Hands :
    (p : Pmm) → IsCounted p → 0 < p.g_free → (g : ℕ) × Hands p g (pmm_alloc_frame p)
pmm_alloc_frame-Hands p c more = elim (alloc_from_lem pmm_max_frames 0 p) [
  | inl none ↦ absurd (
      omega (
        arith,
        c.counted,
        clear_count-full p.bitmap pmm_max_frames (λ f h. none.used f (omega arith) (omega arith)),
      ))
  | inr (g, found) ↦
      let inside : g < pmm_max_frames = omega (arith, found.below) in
      let (counted, fewer) = take_frame-IsCounted p g c inside found.free in
      let result : pmm_alloc_frame p ≡ (g * 4096, take_frame g p) =
        unfold pmm_alloc_frame in found.result in
      (
        g,
        rw result (record {
          address = refl;
          inside = inside;
          was_free = found.free;
          lowest = λ h. elim (Bool-cases (ltb h g)) [
            | inl b ↦ rw (b, found.first h (omega arith) (ltb→lt h g b))
            | inr b ↦ rw b
          ];
          bits = λ h. unfold take_frame in test_bit-set_bit p.bitmap g h c.bytes;
          counted = counted;
          fewer = fewer;
          usable = unfold take_frame in refl;
        }),
      )
]

-- With the counter at zero `pmm_alloc_frame` returns 0 and changes nothing.
pub pmm_alloc_frame-none : (p : Pmm) → IsCounted p → p.g_free ≡ 0 → pmm_alloc_frame p ≡ (0, p)
pmm_alloc_frame-none p c z = elim (alloc_from_lem pmm_max_frames 0 p) [
  | inl none ↦ unfold pmm_alloc_frame in none.result
  | inr (g, found) ↦ absurd (
      omega (
        arith,
        c.counted,
        clear_count-pos p.bitmap pmm_max_frames g (omega (arith, found.below)) found.free,
      ))
]

-- The addresses that `pmm_free_frame` acts on.
unfoldable pub frees : Pmm → ℕ → Bool
frees p addr = addr % 4096 == 0 && ltb addr 0x4000_0000 && test_bit p.bitmap (addr / 4096)

-- `pmm_free_frame` keeps bitmap and counter in step. An address that is unaligned, out of the
-- window or free already changes nothing; any other frees its frame alone.
pub pmm_free_frame_lem :
    (addr : ℕ) (p : Pmm)
    → IsCounted p
    → let q = pmm_free_frame addr p in
      IsCounted q
      × (q.g_free ≡ p.g_free + (if frees p addr then 1 else 0))
      × (q.g_usable ≡ p.g_usable)
      × ((h : ℕ)
          → test_bit q.bitmap h ≡ (not (frees p addr && addr / 4096 == h) && test_bit p.bitmap h))
pmm_free_frame_lem addr p c = elim (Bool-cases (frees p addr)) [
  | inl yes' ↦
      let used : test_bit p.bitmap (addr / 4096) ≡ true = (unfold frees in ground arith) in
      let inside : addr < 0x4000_0000 = (unfold frees in ground arith) in
      let more =
        clear_count-clear_bit p.bitmap (addr / 4096) pmm_max_frames c.bytes (omega arith) used in
      let most = clear_count-le (clear_bit p.bitmap (addr / 4096)) pmm_max_frames in
      let counted = c.counted in
      let freed : pmm_free_frame addr p
          ≡ record p { bitmap = clear_bit p.bitmap (addr / 4096); g_free = add64 p.g_free 1 } =
        (unfold frees pmm_free_frame in ground arith) in
      rw (freed, yes')
        (
          record {
            bytes = clear_bit-IsBytes p.bitmap (addr / 4096) c.bytes;
            counted = omega arith;
          },
          omega arith,
          refl,
          λ h. test_bit-clear_bit p.bitmap (addr / 4096) h c.bytes,
        )
  | inr no' ↦
      let same : pmm_free_frame addr p ≡ p = (unfold frees pmm_free_frame in ground arith) in
      rw (same, no') (c, omega arith, refl, λ h. refl)
]

pub Hands-frees : {p : Pmm} {g : ℕ} {out : ℕ × Pmm} → Hands p g out → frees out.1 out.0 ≡ true
Hands-frees {g} {out} a =
    let inside = a.inside in
    let frame : out.0 / 4096 ≡ g = omega (arith, a.address) in
    let marked : test_bit out.1.bitmap (out.0 / 4096) ≡ true =
      rw frame (rw (a.bits g, beq_of_eq g g refl)) in
    unfold frees in
    rw (
      marked,
      beq_of_eq (out.0 % 4096) 0 (omega (arith, a.address)),
      lt→ltb out.0 0x4000_0000 (omega (arith, a.address)),
    )

free_handed :
    {p : Pmm} {g : ℕ} {out : ℕ × Pmm}
    → Hands p g out
    → let r = pmm_free_frame out.0 out.1 in
      ((h : ℕ) → test_bit r.bitmap h ≡ test_bit p.bitmap h)
      × (r.g_free ≡ p.g_free)
      × (r.g_usable ≡ p.g_usable)
free_handed {p} {g} {out} a =
    let (_, free, usable, bits) = pmm_free_frame_lem out.0 out.1 a.counted in
    let yes' = Hands-frees a in
    let frame : out.0 / 4096 ≡ g = omega (arith, a.address) in
    (
      λ h.
          bits h
          ∙ rw (yes', frame, a.bits h)
              (elim (Bool-cases (g == h)) [
                | inl e ↦ rw (e, ← eq_of_beq g h e, a.was_free)
                | inr ne ↦ rw ne
              ]),
      free ∙ rw yes' a.fewer,
      usable ∙ a.usable,
    )

-- Freeing the frame that was just handed out gives back every bit and both counters.
pub pmm_free_frame-pmm_alloc_frame :
    (p : Pmm)
    → IsCounted p
    → 0 < p.g_free
    → let (addr, q) = pmm_alloc_frame p in
      let r = pmm_free_frame addr q in
      ((h : ℕ) → test_bit r.bitmap h ≡ test_bit p.bitmap h)
      × (r.g_free ≡ p.g_free)
      × (r.g_usable ≡ p.g_usable)
pmm_free_frame-pmm_alloc_frame p c more = free_handed (pmm_alloc_frame-Hands p c more).1
