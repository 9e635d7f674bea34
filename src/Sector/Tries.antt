-- ===== src/Sector/Tries.antt =====
-- The tries of a sector against a disk whose sectors have contents.
use nadir_kernel.Base.{
  ℕ, zero, suc, ◌+◌, ◌-◌, ◌≤◌, ◌<◌, ◌≡◌, refl, ◌∙◌, Bool, true, false, not, ◌&&◌, ◌||◌, Option,
  none, some, arith, if◌then◌else◌, Bool-cases, inl, inr,
}
use nadir_kernel.Base.Ram.{store_bytes, within, store_bytes_lem}
use nadir_kernel.Sector.Disk.{Chs, lba_to_chs, Drive, attempt}
use nadir_kernel.Sector.Geometry.{chs_to_lba}

-- What a drive promises: it writes at most the sector, and the whole sector where it succeeds.
pub record IsDrive (drive : Drive) (image : ℕ → ℕ → ℕ) : Type 0 where
  pub most : (c : Chs) (failed : ℕ) → (drive c failed).size ≤ 512
  pub whole : (c : Chs) (failed : ℕ) → (drive c failed).carry ≡ false → (drive c failed).size ≡ 512
  pub content :
      (c : Chs) (failed j : ℕ)
      → (drive c failed).carry ≡ false
      → j < 512
      → (drive c failed).bytes j ≡ image (chs_to_lba c) j

-- One of the tries succeeds.
unfoldable pub readable : ℕ → ℕ → Drive → Chs → Bool
readable zero failed drive c = false
readable (suc tries) failed drive c =
    not (drive c failed).carry || readable tries (failed + 1) drive c

-- Each of `n` sectors from a sector on can be read in three tries.
unfoldable pub all_readable : ℕ → ℕ → Drive → Bool
all_readable zero lba drive = true
all_readable (suc n) lba drive =
    readable 3 0 drive (lba_to_chs lba) && all_readable n (lba + 1) drive

-- How the tries of a sector end.
pub data Tried (can : Bool) (sector : ℕ → ℕ) (address : ℕ) (mem : ℕ → ℕ)
    : Option (ℕ → ℕ) → Type 0 where
  gave_up : can ≡ false → Tried can sector address mem none
  read :
      can ≡ true
      → (after : ℕ → ℕ) → ((j : ℕ) → j < 512 → after (address + j) ≡ sector j)
      → ((a : ℕ) → within address 512 a ≡ false → after a ≡ mem a)
      → Tried can sector address mem (some after)

-- A failed try in front of others writes to the buffer only.
Tried-later :
    (can : Bool) (sector : ℕ → ℕ) (address size : ℕ) (bytes mem : ℕ → ℕ) (r : Option (ℕ → ℕ))
    → size ≤ 512
    → Tried can sector address (store_bytes size bytes address mem) r
    → Tried can sector address mem r
Tried-later can sector address size bytes mem r le (gave_up never) = gave_up never
Tried-later can sector address size bytes mem r le (read found after is rest) =
    read found after is (λ a off.
      let outside : within address size a ≡ false = ground (arith, off) in
      rest a off ∙ store_bytes_lem size address a bytes mem ∙ rw outside refl)

pub attempt-Tried :
    (tries failed : ℕ) (drive : Drive) (image : ℕ → ℕ → ℕ) (c : Chs) (address : ℕ) (mem : ℕ → ℕ)
    → IsDrive drive image
    → Tried
        (readable tries failed drive c)
        (image (chs_to_lba c))
        address
        mem
        (attempt tries failed drive c address mem)
unfolding readable attempt
attempt-Tried zero failed drive image c address mem d = gave_up refl
attempt-Tried (suc tries) failed drive image c address mem d =
    let r = drive c failed in
    elim (Bool-cases r.carry) [
      | inl bad ↦ rw bad (
          Tried-later _ _ address r.size r.bytes mem _ (d.most c failed) (
            attempt-Tried tries (failed + 1) drive image c address
              (store_bytes r.size r.bytes address mem) d))
      | inr good ↦
          let whole = d.whole c failed good in
          let at : (a : ℕ)
              → store_bytes r.size r.bytes address mem a
                ≡ (if within address 512 a then r.bytes (a - address) else mem a) =
            λ a. store_bytes_lem r.size address a r.bytes mem ∙ rw whole refl in
          rw good (
            read refl (store_bytes r.size r.bytes address mem)
              (λ j lt.
                let inside : within address 512 (address + j) ≡ true = ground arith in
                let byte : address + j - address ≡ j = omega arith in
                at (address + j) ∙ rw (inside, byte) (d.content c failed j good lt))
              (λ a off. at a ∙ rw off refl))
    ]
