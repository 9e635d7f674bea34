-- ===== src/Pmm/Release.antt =====
-- The first pass of `pmm_init`: which frames a usable entry sets free.
use nadir_kernel.Base.{
  ℕ, zero, suc, ◌+◌, ◌-◌, ◌*◌, ◌/◌, ◌≤◌, ◌<◌, ◌^◌, ◌≡◌, refl, Bool, true, false, not, ◌&&◌, ◌||◌,
  arith, ltb, leb, ◌==◌, if◌then◌else◌, Bool-cases, inl, inr, eq_of_beq, List, [], ◌∷◌, add64,
}
use nadir_kernel.Pmm.{
  Pmm, E820Entry, clear_bit, test_bit, release_frames, range_end, clip_end, add_entry, add_entries,
  pmm_max_frames, e820_usable,
}
use nadir_kernel.Pmm.Bitmap.{test_bit-clear_bit, clear_bit-IsBytes}
use nadir_kernel.Pmm.Count.{IsCounted, clear_count-le, clear_count-clear_bit}
use nadir_kernel.Pmm.Ranges.{within, clip_end-le}

-- What a loop of the first pass leaves: the frames of `inside` are free, all else is as it was,
-- and both counters are the number of free frames.
pub record Releases (p : Pmm) (inside : ℕ → Bool) (q : Pmm) : Type 0 where
  pub counted : IsCounted q
  pub usable : q.g_usable ≡ q.g_free
  pub bits : (g : ℕ) → test_bit q.bitmap g ≡ (not (inside g) && test_bit p.bitmap g)

module _ {p : Pmm} where
  Releases-none :
      (inside : ℕ → Bool)
      → IsCounted p
      → p.g_usable ≡ p.g_free
      → ((g : ℕ) → inside g ≡ false)
      → Releases p inside p
  Releases-none inside c u out = record {
    counted = c;
    usable = u;
    bits = λ g. ground (arith, out g);
  }

  Releases-ext :
      {q : Pmm} (inside outer : ℕ → Bool)
      → ((g : ℕ) → outer g ≡ inside g)
      → Releases p inside q
      → Releases p outer q
  Releases-ext inside outer e r = record {
    counted = r.counted;
    usable = r.usable;
    bits = λ g. ground (arith, e g, r.bits g);
  }

  Releases-trans :
      {q s : Pmm} (inside other : ℕ → Bool)
      → Releases p inside q
      → Releases q other s
      → Releases p (λ g. inside g || other g) s
  Releases-trans inside other r t = record {
    counted = t.counted;
    usable = t.usable;
    bits = λ g. ground (arith, r.bits g, t.bits g);
  }

-- The body of the innermost loop.
abbrev release_one : ℕ → Pmm → Pmm
release_one f p =
    if test_bit p.bitmap f
    then record p {
      bitmap = clear_bit p.bitmap f;
      g_usable = add64 p.g_usable 1;
      g_free = add64 p.g_free 1;
    }
    else p

release_one-Releases :
    (f : ℕ) (p : Pmm)
    → IsCounted p
    → p.g_usable ≡ p.g_free
    → f < pmm_max_frames
    → Releases p (λ g. f == g) (release_one f p)
release_one-Releases f p c u h = elim (Bool-cases (test_bit p.bitmap f)) [
  | inl used ↦ rw used (
      let more = clear_count-clear_bit p.bitmap f pmm_max_frames c.bytes h used in
      let most = clear_count-le (clear_bit p.bitmap f) pmm_max_frames in
      let counted = c.counted in
      record {
        counted = record { bytes = clear_bit-IsBytes p.bitmap f c.bytes; counted = omega arith };
        usable = omega arith;
        bits = λ g. test_bit-clear_bit p.bitmap f g c.bytes;
      })
  | inr free ↦ rw free (record {
    counted = c;
    usable = u;
    bits =
        λ g. elim (Bool-cases (f == g)) [ inl e ↦ rw (e, ← eq_of_beq f g e) free | inr ne ↦ rw ne ];
  })
]

release_frames-Releases :
    (n f : ℕ) (p : Pmm)
    → IsCounted p
    → p.g_usable ≡ p.g_free
    → f + n ≤ pmm_max_frames
    → Releases p (within f n) (release_frames n f p)
unfolding release_frames
release_frames-Releases zero f p c u h = Releases-none (within f 0) c u (λ g. ground arith)
release_frames-Releases (suc n) f p c u h =
    let one = release_one-Releases f p c u (omega arith) in
    Releases-ext (λ g. f == g || within (f + 1) n g) (within f (suc n)) (λ g. ground arith)
      (Releases-trans (λ g. f == g) (within (f + 1) n) one
        (release_frames-Releases n (f + 1) (release_one f p) one.counted one.usable (omega arith)))

-- The frames of the window that lie wholly inside a usable entry. `base + length` is not cut to
-- 64 bits here.
unfoldable pub covers : E820Entry → ℕ → Bool
covers e f =
    e.type == e820_usable
    && leb e.base (f * 4096)
    && leb ((f + 1) * 4096) (e.base + e.length)
    && ltb f pmm_max_frames

-- The entry holds 64-bit fields.
pub record IsEntry (e : E820Entry) : Type 0 where
  pub base : e.base < 2 ^ 64
  pub length : e.length < 2 ^ 64

covers-within :
    (base len f : ℕ)
    → base < pmm_max_frames * 4096
    → len < 2 ^ 64
    → (leb base (f * 4096) && leb ((f + 1) * 4096) (base + len) && ltb f pmm_max_frames)
      ≡ within
          ((base + 4096 - 1) / 4096)
          (clip_end (range_end base len) / 4096 - (base + 4096 - 1) / 4096)
          f
unfolding clip_end range_end
covers-within base len f hb hl = ground arith

covers_ram :
    (e : E820Entry) (f : ℕ)
    → (e.type == e820_usable) ≡ true
    → e.base < pmm_max_frames * 4096
    → e.length < 2 ^ 64
    → covers e f
      ≡ within
          ((e.base + 4096 - 1) / 4096)
          (clip_end (range_end e.base e.length) / 4096 - (e.base + 4096 - 1) / 4096)
          f
unfolding covers
covers_ram e f ram low small = rw ram (covers-within e.base e.length f low small)

covers-empty : (base f : ℕ) → (leb base (f * 4096) && leb ((f + 1) * 4096) (base + 0)) ≡ false
covers-empty base f = ground arith

pub add_entry-Releases :
    (e : E820Entry) (p : Pmm)
    → IsEntry e
    → IsCounted p
    → p.g_usable ≡ p.g_free
    → Releases p (covers e) (add_entry e p)
unfolding add_entry
add_entry-Releases e p v c u = elim (Bool-cases (e.type == e820_usable)) [
  | inr other ↦ rw other (Releases-none (covers e) c u (λ g. unfold covers in rw other))
  | inl ram ↦ rw ram (elim (Bool-cases (e.length == 0)) [
    | inl z ↦
        rw z (
          Releases-none (covers e) c u
            (λ g. unfold covers in ground (arith, covers-empty e.base g)))
    | inr ne ↦ rw ne (elim (Bool-cases (leb (pmm_max_frames * 4096) e.base)) [
      | inl high ↦ rw high (Releases-none (covers e) c u (λ g. unfold covers in ground arith))
      | inr low ↦ rw low (
          Releases-ext
            (within ((e.base + 4096 - 1) / 4096)
              (clip_end (range_end e.base e.length) / 4096 - (e.base + 4096 - 1) / 4096))
            (covers e) (λ g. covers_ram e g ram (ground arith) v.length)
            (release_frames-Releases
              (clip_end (range_end e.base e.length) / 4096 - (e.base + 4096 - 1) / 4096)
              ((e.base + 4096 - 1) / 4096) p c u
              (ground (arith, clip_end-le (range_end e.base e.length)))))
    ])
  ])
]

-- Some element passes.
unfoldable pub any {ℓ} : {A : Type ℓ} → (A → Bool) → List A → Bool
any p [] = false
any p (x ∷ xs) = p x || any p xs

abbrev pub AllEntries : List E820Entry → Type 0
AllEntries [] = Unit
AllEntries (e ∷ es) = IsEntry e × AllEntries es

pub add_entries-Releases :
    (es : List E820Entry) (p : Pmm)
    → AllEntries es
    → IsCounted p
    → p.g_usable ≡ p.g_free
    → Releases p (λ f. any (λ e. covers e f) es) (add_entries es p)
unfolding add_entries any
add_entries-Releases [] p v c u = Releases-none (λ f. false) c u (λ g. refl)
add_entries-Releases (e ∷ es) p v c u =
    let one = add_entry-Releases e p v.0 c u in
    Releases-trans (covers e) (λ f. any (λ e. covers e f) es) one
      (add_entries-Releases es (add_entry e p) v.1 one.counted one.usable)
