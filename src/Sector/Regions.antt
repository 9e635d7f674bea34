-- ===== src/Sector/Regions.antt =====
-- The memory map that a BIOS tells, as a list of regions, and how it stands in memory.
use nadir_kernel.Base.{
  ℕ, zero, suc, ◌+◌, ◌≤◌, ◌<◌, ◌≡◌, ap, ◌∙◌, true, false, not, ◌||◌, List, [], ◌∷◌, arith, ◌==◌,
  if◌then◌else◌,
}
use nadir_kernel.Base.Ram.{get_le, get_le-eq}
use nadir_kernel.Sector.{Bios, smap}

-- A region of the map.
pub record Region : Type 0 where
  pub base : ℕ
  pub length : ℕ
  pub type : ℕ

unfoldable pub region_at : (ℕ → ℕ) → ℕ → Region
region_at mem p = record {
  base = get_le 8 p mem;
  length = get_le 8 (p + 8) mem;
  type = get_le 4 (p + 16) mem;
}

-- The replies that count, `room` at most: up to the first call that fails or the end of the list.
unfoldable pub answers : ℕ → Bios → ℕ → ℕ → List Region
answers zero bios calls next = []
answers (suc room) bios calls next =
    let r = bios calls next in
    let rest = answers room bios (calls + 1) r.ebx in
    if r.carry || not (r.eax == smap)
    then []
    else region_at r.bytes 0 ∷ (if r.ebx == 0 then [] else rest)

-- 127 MB of usable memory from 1 MB on.
abbrev pub assumed : Region
assumed = record { base = 0x0010_0000; length = 0x07f0_0000; type = 1 }

abbrev pub or_assumed : List Region → List Region
or_assumed [] = assumed ∷ []
or_assumed (r ∷ rs) = r ∷ rs

unfoldable pub memory_map : Bios → List Region
memory_map bios = or_assumed (answers 64 bios 0 0)

-- What the BIOS promises: it writes at most the 24 bytes that it is offered, and a whole region where it
-- succeeds.
pub record IsBios (bios : Bios) : Type 0 where
  pub most : (calls next : ℕ) → (bios calls next).size ≤ 24
  pub least :
      (calls next : ℕ)
      → (bios calls next).carry ≡ false
      → ((bios calls next).eax == smap) ≡ true
      → 20 ≤ (bios calls next).size

-- The regions stand one after the other, 24 bytes each.
abbrev pub Holds : (ℕ → ℕ) → ℕ → List Region → Type 0
Holds mem p [] = Unit
Holds mem p (r ∷ rs) = (region_at mem p ≡ r) × Holds mem (p + 24) rs

pub region_at-eq :
    (m m' : ℕ → ℕ) (a b : ℕ)
    → ((j : ℕ) → j < 20 → m (a + j) ≡ m' (b + j))
    → region_at m a ≡ region_at m' b
unfolding region_at
region_at-eq m m' a b h = λ i. record {
  base = get_le-eq 8 a b m m' (λ j lt. h j (omega arith)) i;
  length =
      get_le-eq 8 (a + 8) (b + 8) m m'
        (λ j lt. ap m (omega arith) ∙ h (8 + j) (omega arith) ∙ ap m' (omega arith)) i;
  type =
      get_le-eq 4 (a + 16) (b + 16) m m'
        (λ j lt. ap m (omega arith) ∙ h (16 + j) (omega arith) ∙ ap m' (omega arith)) i;
}
