-- ===== src/Pmm/Bitmap.antt =====
-- The bit operations of pmm.c: each acts on the bit of its own frame only.
use nadir_kernel.Base.{ℕ, ◌/◌, ◌%◌, ◌<◌, ◌≡◌, not, ◌&&◌, ◌||◌, arith, ◌==◌}
use nadir_kernel.Base.Bits.{has_flag-set_flag, has_flag-clear_flag, set_flag-lt, clear_flag-lt}
use nadir_kernel.Pmm.{Bitmap, set_bit, clear_bit, test_bit}

-- Every element is a `uint8_t`.
abbrev pub IsBytes : Bitmap → Type 0
IsBytes bm = (i : ℕ) → bm i < 256

-- Frames are equal when byte and bit are.
beq_split : (f g : ℕ) → (f == g) ≡ (f / 8 == g / 8 && f % 8 == g % 8)
beq_split f g = ground arith

pub test_bit-set_bit :
    (bm : Bitmap) (f g : ℕ) → IsBytes bm → test_bit (set_bit bm f) g ≡ (f == g || test_bit bm g)
unfolding test_bit set_bit
test_bit-set_bit bm f g ok = ground (
  arith,
  beq_split f g,
  has_flag-set_flag (bm (f / 8)) (f % 8) (g % 8) (ok (f / 8)) (omega arith) (omega arith),
)

pub test_bit-clear_bit :
    (bm : Bitmap) (f g : ℕ)
    → IsBytes bm
    → test_bit (clear_bit bm f) g ≡ (not (f == g) && test_bit bm g)
unfolding test_bit clear_bit
test_bit-clear_bit bm f g ok = ground (
  arith,
  beq_split f g,
  has_flag-clear_flag (bm (f / 8)) (f % 8) (g % 8) (ok (f / 8)) (omega arith) (omega arith),
)

pub set_bit-IsBytes : (bm : Bitmap) (f : ℕ) → IsBytes bm → IsBytes (set_bit bm f)
unfolding set_bit
set_bit-IsBytes bm f ok i =
    ground (arith, ok i, set_flag-lt (bm (f / 8)) (f % 8) (ok (f / 8)) (omega arith))

pub clear_bit-IsBytes : (bm : Bitmap) (f : ℕ) → IsBytes bm → IsBytes (clear_bit bm f)
unfolding clear_bit
clear_bit-IsBytes bm f ok i =
    ground (arith, ok i, clear_flag-lt (bm (f / 8)) (f % 8) (ok (f / 8)) (omega arith))
