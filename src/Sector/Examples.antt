-- ===== src/Sector/Examples.antt =====
-- The theorems on the boot sector for a BIOS that tells one region of 1 MB, a linked kernel, and a drive
-- whose first try of each sector fails.
use nadir_kernel.Base.{some, ◌≡◌, ℕ, ◌+◌, ◌%◌, refl, false, arith, ◌==◌, if◌then◌else◌}
use nadir_kernel.Entry.MemoryMap.{Layout, IsLinked, long_entry}
use nadir_kernel.Sector.{Bios, smap, query_e820}
use nadir_kernel.Sector.Disk.{Drive}
use nadir_kernel.Sector.Geometry.{chs_to_lba}
use nadir_kernel.Sector.Regions.{IsBios, memory_map, answers, region_at}
use nadir_kernel.Sector.Query.{Queried, query_e820-Queried}
use nadir_kernel.Base.Ram.{get_le}
use nadir_kernel.Pmm.{Pmm, test_bit, pmm_init}
use nadir_kernel.Pmm.Ranges.{reserves}
use nadir_kernel.Pmm.Release.{any, covers}
use nadir_kernel.Pmm.Init.{carves, fixed}
use nadir_kernel.Sector.Staging.{count_in, entries_in}
use nadir_kernel.Sector.Frames.{provides, takes, is_taken, pmm_init-query_e820}
use nadir_kernel.Io.{Bus}
use nadir_kernel.Sector.Start.{start}

-- The region from 1 MB on, 1 MB long, of type 1.
abbrev one_region : Bios
one_region calls next = record {
  carry = false;
  eax = smap;
  ebx = 0;
  size = 20;
  bytes = λ j. if j == 2 then 16 else if j == 10 then 16 else if j == 16 then 1 else 0;
}

one_region-IsBios : IsBios one_region
one_region-IsBios = record {
  most = λ calls next. omega arith;
  least = λ calls next fine echoed. omega arith;
}

abbrev blank_memory : ℕ → ℕ
blank_memory a = 0

query_e820-Queried_example : Queried one_region blank_memory (query_e820 one_region blank_memory)
query_e820-Queried_example = query_e820-Queried one_region blank_memory one_region-IsBios

abbrev linked : Layout
linked = record {
  bss_start = 0x2_0000;
  bss_end = 0x3_0000;
  memmap_count = 0x2_0000;
  memmap_entries = 0x2_0020;
}

linked-IsLinked : IsLinked linked
linked-IsLinked = record {
  start = omega arith;
  order = omega arith;
  fits = omega arith;
  count_start = omega arith;
  entries_start = omega arith;
  count_end = omega arith;
  apart = refl;
  entries_end = omega arith;
}

abbrev staged : ℕ → ℕ
staged = query_e820-Queried_example.after

abbrev empty_bitmap : Pmm
empty_bitmap = record { bitmap = λ i. 0; g_usable = 0; g_free = 0 }

pmm_init-query_e820_example :
    let ready = long_entry linked staged in
    test_bit
      (pmm_init 0x1_0000 0x3_0000
        (count_in linked ready)
        (some (entries_in linked ready))
        empty_bitmap).bitmap
      300
    ≡ is_taken 0x1_0000 0x3_0000 (memory_map one_region) 300
pmm_init-query_e820_example =
    pmm_init-query_e820 linked one_region blank_memory staged staged 0x1_0000 0x3_0000 empty_bitmap
      300 linked-IsLinked one_region-IsBios query_e820-Queried_example.result (λ a lo hi. refl)
      (omega arith) (omega arith) (λ i. omega arith) (omega arith)

-- Frame 300 is free.
frame_300 : is_taken 0x1_0000 0x3_0000 (memory_map one_region) 300 ≡ false
unfolding is_taken memory_map answers fixed any takes provides covers carves reserves region_at
    get_le
frame_300 = refl

-- Byte j of sector n is (n + j) % 256; the first try fails after 100 bytes.
abbrev disk_image : ℕ → ℕ → ℕ
disk_image n j = (n + j) % 256

abbrev shaky : Drive
shaky c failed = record {
  carry = failed == 0;
  size = if failed == 0 then 100 else 512;
  bytes = disk_image (chs_to_lba c);
}

abbrev quiet : Bus
quiet log port = 0
