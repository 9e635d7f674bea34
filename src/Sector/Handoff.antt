-- ===== src/Sector/Handoff.antt =====
-- What the boot sector leaves for the stage-2 entry.
use nadir_kernel.Base.{
  true, ltb, ◌≤◌, ℕ, ◌+◌, ◌*◌, ◌/◌, ◌%◌, ◌^◌, ◌≤◌, ◌<◌, ◌≡◌, Bool, true, false, ◌&&◌, List, [], ◌∷◌,
  ◌++◌, length, ltb, ◌==◌, codes,
}
use nadir_kernel.Base.Ram.{within}
use nadir_kernel.Io.{Log, put, got}
use nadir_kernel.Entry.LongMode.{descriptor}
use nadir_kernel.Sector.{Bios, e820_count, e820_buf}
use nadir_kernel.Sector.Regions.{memory_map, Holds}
use nadir_kernel.Sector.Query.{is_spare}
use nadir_kernel.Sector.Start.{Jump, Stage1, jumps, stops, start}

-- The A20 gate is open: the chipset has said so, or the code has set the bit and kept the others.
pub data Opened (log : Log) : Log → Type 0 where
  was_open : (al : ℕ) → al / 2 % 2 ≡ 1 → Opened log (got 0x92 al ∷ log)
  set_open : (al : ℕ) → al / 2 % 2 ≡ 0 → Opened log (put 0x92 (al + 2) ∷ got 0x92 al ∷ log)

-- A line that the boot sector prints.
abbrev pub crlf : List ℕ → List ℕ
crlf text = text ++ (0x0d ∷ 0x0a ∷ [])

-- A present segment for ring 0 of 4 GB from address 0 on, with 32-bit code or data.
unfoldable pub is_flat : ℕ → Bool
is_flat d =
    d / 2 ^ 44 % 16 == 9
    && d % 2 ^ 16 + d / 2 ^ 48 % 16 * 2 ^ 16 == 0xfffff
    && d / 2 ^ 54 % 4 == 3
    && d / 2 ^ 16 % 2 ^ 24 + d / 2 ^ 56 * 2 ^ 24 == 0

-- 32-bit code at the start of the kernel, with the stack below the video memory.
pub record IsFlat (j : Jump) : Type 0 where
  pub start : j.eip ≡ 0x1_0000
  pub code : is_flat (descriptor (j.cs / 8) j.descriptors) ≡ true
  pub runs : descriptor (j.cs / 8) j.descriptors / 2 ^ 43 % 2 ≡ 1
  pub data_segment : is_flat (descriptor (j.data_segment / 8) j.descriptors) ≡ true
  pub written : descriptor (j.data_segment / 8) j.descriptors / 2 ^ 41 % 8 ≡ 1

-- The kernel and the memory map in memory.
pub record Handed (n : ℕ) (image : ℕ → ℕ → ℕ) (bios : Bios) (mem after : ℕ → ℕ) : Type 0 where
  pub kernel : (i j : ℕ) → i < n → j < 512 → after (0x1_0000 + 512 * i + j) ≡ image (1 + i) j
  pub count : after e820_count ≡ length (memory_map bios)
  pub map : Holds after e820_buf (memory_map bios)
  pub rest :
      (a : ℕ)
      → is_spare a ≡ true
      → within 0x5000 0x638 a ≡ false
      → within 0x1_0000 (512 * n) a ≡ false
      → after a ≡ mem a

pub data Left (can : Bool) (n : ℕ) (image : ℕ → ℕ → ℕ) (bios : Bios) (mem : ℕ → ℕ) (log : Log)
    (shown : List ℕ) : Stage1 → Type 0 where
  handed :
      can ≡ true
      → (j : Jump) (after : ℕ → ℕ) (log' : Log) → IsFlat j
      → Handed n image bios mem after
      → Opened log log'
      → Left can n image bios mem log shown (
          jumps j after log' ((shown ++ crlf (codes "Nadir: load")) ++ crlf (codes "Nadir: pmode")))
  failed :
      can ≡ false
      → (log' : Log) → Opened log log'
      → Left can n image bios mem log shown
          (stops log' ((shown ++ crlf (codes "Nadir: load")) ++ crlf (codes "Nadir: disk err")))
