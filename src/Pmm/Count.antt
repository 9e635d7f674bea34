-- ===== src/Pmm/Count.antt =====
-- The number of free frames of a bitmap, and the invariant that `g_free` is that number.
use nadir_kernel.Base.{
  ℕ, zero, suc, ◌+◌, ◌≤◌, ◌<◌, ◌≡◌, refl, true, false, arith, ◌==◌, if◌then◌else◌, Bool-cases, inl,
  inr, eq_of_beq,
}
use nadir_kernel.Pmm.{Bitmap, Pmm, set_bit, clear_bit, test_bit, pmm_max_frames}
use nadir_kernel.Pmm.Bitmap.{IsBytes, test_bit-set_bit, test_bit-clear_bit}

-- The clear bits among the first `n` frames.
unfoldable pub clear_count : Bitmap → ℕ → ℕ
clear_count bm zero = 0
clear_count bm (suc n) = (if test_bit bm n then 0 else 1) + clear_count bm n

pub clear_count-le : (bm : Bitmap) (n : ℕ) → clear_count bm n ≤ n
unfolding clear_count
clear_count-le bm zero = omega arith
clear_count-le bm (suc n) = ground (arith, clear_count-le bm n)

set_above :
    (bm : Bitmap) (f n : ℕ) → IsBytes bm → n ≤ f → clear_count (set_bit bm f) n ≡ clear_count bm n
unfolding clear_count
set_above bm f zero ok h = refl
set_above bm f (suc n) ok h =
    ground (arith, set_above bm f n ok (omega arith), test_bit-set_bit bm f n ok)

clear_above :
    (bm : Bitmap) (f n : ℕ) → IsBytes bm → n ≤ f → clear_count (clear_bit bm f) n ≡ clear_count bm n
unfolding clear_count
clear_above bm f zero ok h = refl
clear_above bm f (suc n) ok h =
    ground (arith, clear_above bm f n ok (omega arith), test_bit-clear_bit bm f n ok)

pub clear_count-set_bit :
    (bm : Bitmap) (f n : ℕ)
    → IsBytes bm
    → f < n
    → test_bit bm f ≡ false
    → clear_count (set_bit bm f) n + 1 ≡ clear_count bm n
unfolding clear_count
clear_count-set_bit bm f zero ok h free = elim h [ ]
clear_count-set_bit bm f (suc n) ok h free = elim (Bool-cases (f == n)) [
  | inl e ↦ ground (arith, set_above bm f n ok (ground arith), test_bit-set_bit bm f n ok)
  | inr ne ↦
      ground (arith, clear_count-set_bit bm f n ok (ground arith) free, test_bit-set_bit bm f n ok)
]

pub clear_count-clear_bit :
    (bm : Bitmap) (f n : ℕ)
    → IsBytes bm
    → f < n
    → test_bit bm f ≡ true
    → clear_count (clear_bit bm f) n ≡ clear_count bm n + 1
unfolding clear_count
clear_count-clear_bit bm f zero ok h used = elim h [ ]
clear_count-clear_bit bm f (suc n) ok h used = elim (Bool-cases (f == n)) [
  | inl e ↦ ground (arith, clear_above bm f n ok (ground arith), test_bit-clear_bit bm f n ok)
  | inr ne ↦
      ground
        (arith, clear_count-clear_bit bm f n ok (ground arith) used, test_bit-clear_bit bm f n ok)
]

pub clear_count-full :
    (bm : Bitmap) (n : ℕ) → ((f : ℕ) → f < n → test_bit bm f ≡ true) → clear_count bm n ≡ 0
unfolding clear_count
clear_count-full bm zero all = refl
clear_count-full bm (suc n) all =
    rw (all n (omega arith)) (omega (arith, clear_count-full bm n (λ f h. all f (omega arith))))

pub clear_count-pos : (bm : Bitmap) (n f : ℕ) → f < n → test_bit bm f ≡ false → 0 < clear_count bm n
unfolding clear_count
clear_count-pos bm zero f h free = elim h [ ]
clear_count-pos bm (suc n) f h free = elim (Bool-cases (f == n)) [
  | inl e ↦ rw (← eq_of_beq f n e, free) (omega arith)
  | inr ne ↦ ground (arith, clear_count-pos bm n f (ground arith) free)
]

-- The counter and the bitmap agree.
pub record IsCounted (p : Pmm) : Type 0 where
  pub bytes : IsBytes p.bitmap
  pub counted : p.g_free ≡ clear_count p.bitmap pmm_max_frames
