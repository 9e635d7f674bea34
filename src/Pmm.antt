-- ===== src/Pmm.antt =====
-- kernel/mm/pmm.c with include/pmm.h and include/e820.h: the bitmap of 4 KB frames. The static
-- variables are the record `Pmm`, and a function that writes them returns the new record.
pub mod Bitmap
pub mod Count
pub mod Ranges
pub mod Release
pub mod Init
pub mod Alloc
pub mod Ledger
pub mod Sample
mod Examples
use nadir_kernel.Base.{
  ℕ, zero, suc, ◌+◌, ◌-◌, ◌*◌, ◌/◌, ◌%◌, Bool, not, Option, none, some, List, [], ◌∷◌, ltb, leb,
  ◌==◌, if◌then◌else◌, update, add64, sub64, uint64_max,
}
use nadir_kernel.Base.Bits.{set_flag, clear_flag, has_flag}

abbrev pub pmm_frame_size : ℕ
pmm_frame_size = 4096

abbrev pub pmm_max_bytes : ℕ
pmm_max_bytes = 0x4000_0000

abbrev pub pmm_max_frames : ℕ
pmm_max_frames = 262_144

abbrev pub e820_max : ℕ
e820_max = 64

abbrev pub e820_usable : ℕ
e820_usable = 1

-- `struct e820_entry`
pub record E820Entry : Type 0 where
  pub base : ℕ
  pub length : ℕ
  pub type : ℕ
  pub acpi_attr : ℕ

abbrev pub Bitmap : Type 0
Bitmap = ℕ → ℕ

-- `bitmap`, `g_usable` and `g_free`
pub record Pmm : Type 0 where
  pub bitmap : Bitmap
  pub g_usable : ℕ
  pub g_free : ℕ

unfoldable pub set_bit : Bitmap → ℕ → Bitmap
set_bit bitmap frame = update bitmap (frame / 8) (set_flag (bitmap (frame / 8)) (frame % 8))

unfoldable pub clear_bit : Bitmap → ℕ → Bitmap
clear_bit bitmap frame = update bitmap (frame / 8) (clear_flag (bitmap (frame / 8)) (frame % 8))

unfoldable pub test_bit : Bitmap → ℕ → Bool
test_bit bitmap frame = has_flag (bitmap (frame / 8)) (frame % 8)

-- `set_bit(frame); g_free--;`
unfoldable pub take_frame : ℕ → Pmm → Pmm
take_frame frame p = record p { bitmap = set_bit p.bitmap frame; g_free = sub64 p.g_free 1 }

-- The loop of `reserve_range`, with the rounds left and the frame.
unfoldable pub reserve_frames : ℕ → ℕ → Pmm → Pmm
reserve_frames zero frame p = p
reserve_frames (suc n) frame p =
    reserve_frames n (frame + 1) (if test_bit p.bitmap frame then p else take_frame frame p)

-- `end = base + len; if (end < base) end = UINT64_MAX;`
unfoldable pub range_end : ℕ → ℕ → ℕ
range_end base len = if ltb (add64 base len) base then uint64_max else add64 base len

-- `if (end > PMM_MAX_BYTES) end = PMM_MAX_BYTES;`
unfoldable pub clip_end : ℕ → ℕ
clip_end end = if ltb pmm_max_bytes end then pmm_max_bytes else end

unfoldable pub reserve_range : ℕ → ℕ → Pmm → Pmm
reserve_range base len p =
    if len == 0
    then p
    else if leb pmm_max_bytes base
    then p
    else let end = clip_end (range_end base len) in
      reserve_frames (end / pmm_frame_size - base / pmm_frame_size) (base / pmm_frame_size) p

-- The innermost loop of `pmm_init`: rounds left and frame.
unfoldable pub release_frames : ℕ → ℕ → Pmm → Pmm
release_frames zero frame p = p
release_frames (suc n) frame p = release_frames n (frame + 1) (
    if test_bit p.bitmap frame
    then record p {
      bitmap = clear_bit p.bitmap frame;
      g_usable = add64 p.g_usable 1;
      g_free = add64 p.g_free 1;
    }
    else p)

-- One round of the first pass of `pmm_init`; each `continue` leaves the state as it is.
unfoldable pub add_entry : E820Entry → Pmm → Pmm
add_entry e p =
    if not (e.type == e820_usable)
    then p
    else if e.length == 0
    then p
    else if leb pmm_max_bytes e.base
    then p
    else let end = clip_end (range_end e.base e.length) / pmm_frame_size in
      let start = (e.base + pmm_frame_size - 1) / pmm_frame_size in
      release_frames (end - start) start p

unfoldable pub add_entries : List E820Entry → Pmm → Pmm
add_entries [] p = p
add_entries (e ∷ es) p = add_entries es (add_entry e p)

-- The second pass.
unfoldable pub carve_entries : List E820Entry → Pmm → Pmm
carve_entries [] p = p
carve_entries (e ∷ es) p =
    carve_entries es (if e.type == e820_usable then p else reserve_range e.base e.length p)

-- `entries[i]`, …, `entries[i + n - 1]`
unfoldable pub entries_from : (ℕ → E820Entry) → ℕ → ℕ → List E820Entry
entries_from entries i zero = []
entries_from entries i (suc n) = entries i ∷ entries_from entries (i + 1) n

-- The entries that both passes visit: none for a null pointer, and `E820_MAX` at most.
unfoldable pub visited : ℕ → Option (ℕ → E820Entry) → List E820Entry
visited count none = []
visited count (some entries) =
    entries_from entries 0 (if ltb e820_max count then e820_max else count)

-- The bitmap after `for (i = 0; i < sizeof(bitmap); i++) bitmap[i] = 0xFFU;`, and both counters 0.
unfoldable pub all_reserved : Pmm → Pmm
all_reserved p = record {
  bitmap = λ i. if ltb i (pmm_max_frames / 8) then 0xff else p.bitmap i;
  g_usable = 0;
  g_free = 0;
}

-- The last six calls; the linker script sets the two bounds of the kernel image.
unfoldable pub reserve_fixed : ℕ → ℕ → Pmm → Pmm
reserve_fixed kernel_start kernel_end p = reserve_range 0xb8000 0x1000 (
    reserve_range 0x8c000 0x4000 (
      reserve_range 0x5000 0x620 (
        reserve_range 0x70000 0x4000 (
          reserve_range kernel_start (sub64 kernel_end kernel_start)
            (reserve_range 0 0x10_0000 p)))))

unfoldable pub pmm_init : ℕ → ℕ → ℕ → Option (ℕ → E820Entry) → Pmm → Pmm
pmm_init kernel_start kernel_end count entries p =
    let es = visited count entries in
    reserve_fixed kernel_start kernel_end (carve_entries es (add_entries es (all_reserved p)))

-- The loop of `pmm_alloc_frame`: rounds left and frame.
unfoldable pub alloc_from : ℕ → ℕ → Pmm → ℕ × Pmm
alloc_from zero frame p = (0, p)
alloc_from (suc n) frame p =
    let rest = alloc_from n (frame + 1) p in
    if test_bit p.bitmap frame then rest else (frame * pmm_frame_size, take_frame frame p)

unfoldable pub pmm_alloc_frame : Pmm → ℕ × Pmm
pmm_alloc_frame p = alloc_from pmm_max_frames 0 p

unfoldable pub pmm_free_frame : ℕ → Pmm → Pmm
pmm_free_frame addr p =
    if not (addr % pmm_frame_size == 0)
    then p
    else if leb pmm_max_bytes addr
    then p
    else if test_bit p.bitmap (addr / pmm_frame_size)
    then record p { bitmap = clear_bit p.bitmap (addr / pmm_frame_size); g_free = add64 p.g_free 1 }
    else p

abbrev pub pmm_total_count : ℕ
pmm_total_count = pmm_max_frames

abbrev pub pmm_free_count : Pmm → ℕ
pmm_free_count p = p.g_free

abbrev pub pmm_usable_count : Pmm → ℕ
pmm_usable_count p = p.g_usable
