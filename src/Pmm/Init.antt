-- ===== src/Pmm/Init.antt =====
-- `pmm_init` against its specification.
use nadir_kernel.Base.{
  ℕ, ◌+◌, ◌-◌, ◌*◌, ◌/◌, ◌%◌, ◌≤◌, ◌<◌, ◌^◌, ◌≡◌, refl, Bool, true, false, not, ◌&&◌, ◌||◌, arith,
  ltb, ◌==◌, if◌then◌else◌, Bool-cases, inl, inr, ◌∙◌, List, [], ◌∷◌, Option, sub64, sym, lt→ltb,
  ◌≢◌, some,
}
use nadir_kernel.Base.Bits.{has_flag, all_below, all_below_sound}
use nadir_kernel.Pmm.{
  Pmm, E820Entry, test_bit, carve_entries, add_entries, visited, entries_from, all_reserved,
  pmm_init, reserve_range, reserve_fixed, pmm_max_frames, e820_usable,
}
use nadir_kernel.Pmm.Count.{IsCounted, clear_count-full}
use nadir_kernel.Pmm.Ranges.{
  Reserves, Reserves-none, Reserves-ext, Reserves-trans, reserves, reserve_range-Reserves,
}
use nadir_kernel.Pmm.Release.{covers, any, AllEntries, IsEntry, add_entries-Releases}

-- The frames that an entry which is not usable takes away.
unfoldable pub carves : E820Entry → ℕ → Bool
carves e f = not (e.type == e820_usable) && reserves e.base e.length f

carve_one :
    (e : E820Entry) (p : Pmm)
    → IsEntry e
    → IsCounted p
    → Reserves p (carves e) (if e.type == e820_usable then p else reserve_range e.base e.length p)
carve_one e p v c = elim (Bool-cases (e.type == e820_usable)) [
  | inl ram ↦ rw ram (Reserves-none (carves e) c (λ g. unfold carves in rw ram))
  | inr other ↦ rw other (
      Reserves-ext (reserves e.base e.length) (carves e) (λ g. unfold carves in rw other)
        (reserve_range-Reserves e.base e.length p c v.length))
]

carve_entries-Reserves :
    (es : List E820Entry) (p : Pmm)
    → AllEntries es
    → IsCounted p
    → Reserves p (λ f. any (λ e. carves e f) es) (carve_entries es p)
unfolding carve_entries any
carve_entries-Reserves [] p v c = Reserves-none (λ f. false) c (λ g. refl)
carve_entries-Reserves (e ∷ es) p v c =
    let one = carve_one e p v.0 c in
    let next = (if e.type == e820_usable then p else reserve_range e.base e.length p) in
    Reserves-ext (λ f. any (λ e. carves e f) es || carves e f)
      (λ f. carves e f || any (λ e. carves e f) es) (λ g. ground arith)
      (Reserves-trans (carves e) (λ f. any (λ e. carves e f) es) one
        (carve_entries-Reserves es next v.1 one.counted))

full_byte : (f : ℕ) → has_flag 255 (f % 8) ≡ true
unfolding all_below has_flag
full_byte f = all_below_sound 8 (λ i. has_flag 255 i) (f % 8) refl (omega arith)

all_reserved-bits :
    (p : Pmm) (f : ℕ) → f < pmm_max_frames → test_bit (all_reserved p).bitmap f ≡ true
unfolding all_reserved test_bit
all_reserved-bits p f h = rw (lt→ltb (f / 8) 32_768 (omega arith)) (full_byte f)

all_reserved-IsCounted : (p : Pmm) → ((i : ℕ) → p.bitmap i < 256) → IsCounted (all_reserved p)
all_reserved-IsCounted p ok = record {
  bytes = λ i. unfold all_reserved in ground (arith, ok i);
  counted =
      unfold all_reserved in
      sym (clear_count-full (all_reserved p).bitmap pmm_max_frames (all_reserved-bits p));
}

-- The frames that are taken away last: the low megabyte and the kernel image.
unfoldable pub fixed : ℕ → ℕ → ℕ → Bool
fixed kernel_start kernel_end f = ltb f 256 || reserves kernel_start (kernel_end - kernel_start) f

fixed_calls :
    (f : ℕ) (kernel : Bool)
    → (reserves 0xb8000 0x1000 f
        || (reserves 0x8c000 0x4000 f
            || (reserves 0x5000 0x620 f
                || (reserves 0x70000 0x4000 f || (kernel || reserves 0 0x10_0000 f)))))
      ≡ (ltb f 256 || kernel)
unfolding reserves
fixed_calls f kernel = ground arith

reserve_fixed-Reserves :
    (s t : ℕ) (p : Pmm)
    → s ≤ t
    → t < 2 ^ 64
    → IsCounted p
    → Reserves p (fixed s t) (reserve_fixed s t p)
unfolding reserve_fixed
reserve_fixed-Reserves s t p le small c =
    let n = sub64 t s in
    let width : n ≡ t - s = omega arith in
    let p1 = reserve_range 0 0x10_0000 p in
    let p2 = reserve_range s n p1 in
    let p3 = reserve_range 0x70000 0x4000 p2 in
    let p4 = reserve_range 0x5000 0x620 p3 in
    let p5 = reserve_range 0x8c000 0x4000 p4 in
    let r1 = reserve_range-Reserves 0 0x10_0000 p c (omega arith) in
    let r2 = reserve_range-Reserves s n p1 r1.counted (omega arith) in
    let r3 = reserve_range-Reserves 0x70000 0x4000 p2 r2.counted (omega arith) in
    let r4 = reserve_range-Reserves 0x5000 0x620 p3 r3.counted (omega arith) in
    let r5 = reserve_range-Reserves 0x8c000 0x4000 p4 r4.counted (omega arith) in
    let r6 = reserve_range-Reserves 0xb8000 0x1000 p5 r5.counted (omega arith) in
    Reserves-ext
      (λ g.
        reserves 0xb8000 0x1000 g
        || (reserves 0x8c000 0x4000 g
            || (reserves 0x5000 0x620 g
                || (reserves 0x70000 0x4000 g || (reserves s n g || reserves 0 0x10_0000 g)))))
      (fixed s t) (λ g. unfold fixed in rw (← width) (sym (fixed_calls g (reserves s n g))))
      (Reserves-trans _ (reserves 0xb8000 0x1000)
        (Reserves-trans _ (reserves 0x8c000 0x4000)
          (Reserves-trans _ (reserves 0x5000 0x620)
            (Reserves-trans _ (reserves 0x70000 0x4000)
              (Reserves-trans (reserves 0 0x10_0000) (reserves s n) r1 r2) r3)
            r4)
          r5)
        r6)

-- After `pmm_init` a frame of the window is free exactly when some visited usable entry covers it
-- whole, no visited entry of another type takes it, and it lies neither in the low megabyte nor
-- in the kernel image; the counters then agree with the bitmap, and the free frames are at most
-- the usable ones. The entries and the kernel's bounds are 64-bit values.
pub pmm_init_lem :
    (s t count : ℕ) (entries : Option (ℕ → E820Entry)) (p : Pmm) (f : ℕ)
    → s ≤ t
    → t < 2 ^ 64
    → ((i : ℕ) → p.bitmap i < 256)
    → AllEntries (visited count entries)
    → f < pmm_max_frames
    → let q = pmm_init s t count entries p in
      let es = visited count entries in
      IsCounted q
      × (q.g_free ≤ q.g_usable)
      × (test_bit q.bitmap f
          ≡ (fixed s t f || (any (λ e. carves e f) es || not (any (λ e. covers e f) es))))
unfolding pmm_init
pmm_init_lem s t count entries p f le small bytes v h =
    let es = visited count entries in
    let p0 = all_reserved p in
    let p1 = add_entries es p0 in
    let p2 = carve_entries es p1 in
    let c0 = all_reserved-IsCounted p bytes in
    let a = add_entries-Releases es p0 v c0 (unfold all_reserved in refl) in
    let b = carve_entries-Reserves es p1 v a.counted in
    let c = reserve_fixed-Reserves s t p2 le small b.counted in
    (
      c.counted,
      omega (arith, c.usable, c.fewer, b.usable, b.fewer, a.usable),
      ground (arith, c.bits f, b.bits f, a.bits f, all_reserved-bits p f h),
    )

out_of_fixed : (s t f : ℕ) → s ≤ t → 256 ≤ f → t < f * 4096 → fixed s t f ≡ false
unfolding fixed reserves
out_of_fixed s t f le high kernel = ground arith

ram_not_carved : (e : E820Entry) (f : ℕ) → covers e f ≡ true → carves e f ≡ false
unfolding carves covers
ram_not_carved e f h = ground arith

not_reached : (e : E820Entry) (f : ℕ) → e.base + e.length < (f + 1) * 4096 → carves e f ≡ false
unfolding carves reserves
not_reached e f h = ground arith

-- A partly reserved frame: a usable entry covers frame `f`, and an entry of another type ends
-- inside the frame (so it may hold part of it). `pmm_init` leaves the frame free, although it is
-- above the low megabyte and the kernel image lies elsewhere.
pub partial_frame-free :
    (s t f : ℕ) (entries : ℕ → E820Entry) (p : Pmm)
    → s ≤ t
    → t < 2 ^ 64
    → ((i : ℕ) → p.bitmap i < 256)
    → IsEntry (entries 0) × IsEntry (entries 1)
    → covers (entries 0) f ≡ true
    → (entries 1).type ≢ e820_usable
    → (entries 1).base + (entries 1).length < (f + 1) * 4096
    → 256 ≤ f
    → t < f * 4096
    → test_bit (pmm_init s t 2 (some entries) p).bitmap f ≡ false
unfolding visited entries_from any
partial_frame-free s t f entries p le small bytes v in_ram other ends high kernel =
    let inside : f < pmm_max_frames = (unfold covers in ground arith) in
    let (_, _, bits) =
      pmm_init_lem s t 2 (some entries) p f le small bytes (v.0, (v.1, tt)) inside in
    bits
    ∙ rw
        (
          out_of_fixed s t f le high kernel,
          ram_not_carved (entries 0) f in_ram,
          not_reached (entries 1) f ends,
          in_ram,
        )
        refl
