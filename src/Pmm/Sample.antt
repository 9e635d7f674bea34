-- ===== src/Pmm/Sample.antt =====
-- A machine with three usable frames above the low megabyte, for the tests.
use nadir_kernel.Base.{ℕ, zero, suc, ◌<◌, ◌≡◌, refl, true, some, none, [], ◌∷◌, arith}
use nadir_kernel.Base.Bits.{set_flag, clear_flag, has_flag}
use nadir_kernel.Pmm.{
  Pmm, entries_from, all_reserved, add_entries, release_frames, carve_entries, reserve_fixed,
  reserve_frames, range_end, clip_end, take_frame, set_bit, clear_bit, alloc_from, E820Entry,
  pmm_init, pmm_alloc_frame, pmm_free_frame, test_bit, visited, add_entry, reserve_range,
}
use nadir_kernel.Pmm.Count.{IsCounted}
use nadir_kernel.Pmm.Release.{AllEntries}
use nadir_kernel.Pmm.Init.{pmm_init_lem}
use nadir_kernel.Pmm.Ledger.{Ledger, Reach, alloc, here, next, IsSafe}

-- The static variables before `pmm_init`.
abbrev pub bss : Pmm
bss = record { bitmap = λ i. 0; g_usable = 0; g_free = 0 }

-- Three frames from 1 MB on, the second of which is reserved in part.
abbrev pub ram : E820Entry
ram = record { base = 0x10_0000; length = 0x3000; type = 1; acpi_attr = 0 }

abbrev pub acpi : E820Entry
acpi = record { base = 0x10_1000; length = 0x800; type = 3; acpi_attr = 0 }

abbrev pub table : ℕ → E820Entry
table zero = ram
table (suc i) = acpi

unfoldable pub booted : Pmm
unfolding pmm_init visited entries_from all_reserved add_entries add_entry release_frames
    carve_entries reserve_fixed reserve_range reserve_frames range_end clip_end take_frame set_bit
    clear_bit test_bit set_flag clear_flag has_flag pmm_alloc_frame alloc_from pmm_free_frame
booted = pmm_init 0x1_0000 0x2_0000 2 (some table) bss

pub visited_two : AllEntries (visited 2 (some table))
unfolding visited entries_from
visited_two = omega arith

pub booted-IsCounted : IsCounted booted
unfolding booted
booted-IsCounted =
    (pmm_init_lem 0x1_0000 0x2_0000 2 (some table) bss 257 (omega arith) (omega arith)
      (λ i. omega arith) visited_two (omega arith)).0

pub booted_counters : (booted.g_free ≡ 3) × (booted.g_usable ≡ 3)
unfolding booted
booted_counters = (refl, refl)

pub some_free : 0 < booted.g_free
some_free = rw booted_counters.0 (omega arith)

pub booted_zero : test_bit booted.bitmap 0 ≡ true
unfolding booted
booted_zero = refl

-- No entry at all: nothing is free.
unfoldable pub unmapped : Pmm
unfolding pmm_init visited entries_from all_reserved add_entries carve_entries reserve_fixed
    reserve_range reserve_frames range_end clip_end test_bit has_flag
unmapped = pmm_init 0x1_0000 0x2_0000 2 none bss

pub unmapped-IsCounted : IsCounted unmapped × (unmapped.g_free ≡ 0)
unfolding unmapped
unmapped-IsCounted = (
  (pmm_init_lem 0x1_0000 0x2_0000 2 none bss 257 (omega arith) (omega arith) (λ i. omega arith) tt
      (omega arith)).0,
  refl,
)

unfoldable pub start : Ledger
start = record { pmm = booted; held = [] }

pub start-IsSafe : IsSafe 3 start
unfolding start booted
start-IsSafe = record {
  counted = booted-IsCounted;
  zero_reserved = refl;
  distinct = tt;
  good_held = λ a h. cc;
  total = refl;
}

unfoldable pub taken : Ledger
unfolding start booted
taken = record { pmm = (pmm_alloc_frame booted).1; held = (pmm_alloc_frame booted).0 ∷ [] }

pub start-taken : Reach start taken
unfolding taken
start-taken = next here (alloc start (omega arith))
