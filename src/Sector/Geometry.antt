-- ===== src/Sector/Geometry.antt =====
-- Sector numbers and the registers that name a sector.
use Prim.Native.Nat.{bit_and, bit_or}
use nadir_kernel.Base.{
  ℕ, ◌+◌, ◌-◌, ◌*◌, ◌/◌, ◌%◌, ◌≤◌, ◌<◌, ◌≡◌, refl, ap, ◌∙◌, true, arith, ◌==◌, eq_of_beq,
}
use nadir_kernel.Base.Bits.{all_below, all_below_sound}
use nadir_kernel.Sector.Disk.{Chs, lba_to_chs}

-- How the BIOS reads the registers: the two upper bits of cl belong to the cylinder.
unfoldable pub chs_to_lba : Chs → ℕ
chs_to_lba c = ((c.ch + 256 * (c.cl / 64)) * 2 + c.dh) * 18 + c.cl % 64 - 1

upper_table : all_below 256 (λ x. bit_and x 0xc0 == x / 64 * 64) ≡ true
unfolding all_below
upper_table = refl

upper_bits : (x : ℕ) → x < 256 → bit_and x 0xc0 ≡ x / 64 * 64
upper_bits x h =
    eq_of_beq _ _ (all_below_sound 256 (λ x. bit_and x 0xc0 == x / 64 * 64) x upper_table h)

join_table : all_below 64 (λ s. all_below 4 (λ t. bit_or s (t * 64) == s + t * 64)) ≡ true
unfolding all_below
join_table = refl

join_bits : (s t : ℕ) → s < 64 → t < 4 → bit_or s (t * 64) ≡ s + t * 64
join_bits s t hs ht = eq_of_beq _ _ (
    all_below_sound 4 (λ t. bit_or s (t * 64) == s + t * 64) t
      (all_below_sound 64 (λ s. all_below 4 (λ t. bit_or s (t * 64) == s + t * 64)) s join_table hs)
      ht)

-- The fields of a sector's name.
pub record Names (lba : ℕ) (c : Chs) : Type 0 where
  pub number : chs_to_lba c ≡ lba
  pub head : c.dh < 2
  pub sector_least : 1 ≤ c.cl % 64
  pub sector_most : c.cl % 64 ≤ 18

-- The registers name the sector: read as cylinder, head and sector they give its number back, for every
-- sector of the 1024 cylinders that they can name; head and sector lie within the geometry.
pub lba_to_chs-Names : (lba : ℕ) → lba < 36864 → Names lba (lba_to_chs lba)
unfolding lba_to_chs chs_to_lba
lba_to_chs-Names lba h =
    let cylinder = lba / 18 / 2 in
    let sector = (lba % 18 + 1) % 256 in
    let cl : bit_or sector (bit_and (cylinder / 4 % 256) 0xc0)
        ≡ sector + cylinder / 4 % 256 / 64 * 64 =
      ap (bit_or sector) (upper_bits (cylinder / 4 % 256) (omega arith))
      ∙ join_bits sector (cylinder / 4 % 256 / 64) (omega arith) (omega arith) in
    rw cl (record {
      number = omega arith;
      head = omega arith;
      sector_least = omega arith;
      sector_most = omega arith;
    })
