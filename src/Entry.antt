-- ===== src/Entry.antt =====
-- kernel/arch/x86_64/entry.asm: the page tables that the stage-2 entry builds, on a memory of 32-bit words
-- at addresses divisible by 4; in the children the switch to long mode, and how the memory map goes to
-- the C code, on a memory of bytes. What the processor does with the tables is that of its manual.
pub mod Paging
pub mod MemoryMap
pub mod LongMode
mod Examples
use Prim.Native.Nat.{bit_or}
use nadir_kernel.Base.{
  ℕ, zero, suc, ◌+◌, ◌*◌, ◌/◌, ◌%◌, ◌^◌, Option, none, some, ◌==◌, if◌then◌else◌, update,
}

abbrev pub pml4 : ℕ
pml4 = 0x70000

abbrev pub pdpt : ℕ
pdpt = 0x71000

abbrev pub pd : ℕ
pd = 0x72000

-- `rep stosd` with 0 in eax.
unfoldable pub clear_words : ℕ → ℕ → (ℕ → ℕ) → ℕ → ℕ
clear_words zero edi mem = mem
clear_words (suc ecx) edi mem = clear_words ecx (edi + 4) (update mem edi 0)

-- The loop `.fill_pd`.
unfoldable pub fill_pd : ℕ → ℕ → ℕ → (ℕ → ℕ) → ℕ → ℕ
fill_pd zero edi eax mem = mem
fill_pd (suc ecx) edi eax mem =
    fill_pd ecx (edi + 8) ((eax + 0x200000) % 2 ^ 32) (update mem edi eax)

unfoldable pub page_tables : (ℕ → ℕ) → ℕ → ℕ
page_tables mem =
    let mem = clear_words 0x1000 pml4 mem in
    let mem = update mem pml4 (bit_or pdpt 0x03) in
    let mem = update mem pdpt (bit_or pd 0x03) in fill_pd 512 pd 0x83 mem

-- An entry of a table: bit 0 says that it is present, bit 7 that it maps a page of its own, and an
-- address stands in the bits from 12 to 51.
unfoldable pub table_entry : (ℕ → ℕ) → ℕ → ℕ → ℕ
table_entry mem table index = mem (table + 8 * index) + 2 ^ 32 * mem (table + 8 * index + 4)

abbrev pub is_present : ℕ → ℕ
is_present e = e % 2

abbrev pub is_page : ℕ → ℕ
is_page e = e / 128 % 2

abbrev pub address : ℕ → ℕ
address e = e % 2 ^ 52 / 4096 * 4096

-- The page of an entry that maps 2 ^ bits bytes.
abbrev pub in_page : ℕ → ℕ → ℕ → ℕ
in_page size e v = e % 2 ^ 52 / size * size + v % size

-- The processor's walk of four levels from cr3: the physical address, or `none` for a page fault.
unfoldable pub walk_pt : (ℕ → ℕ) → ℕ → ℕ → Option ℕ
walk_pt mem table v =
    let e = table_entry mem table (v / 2 ^ 12 % 512) in
    if is_present e == 0 then none else some (in_page (2 ^ 12) e v)

unfoldable pub walk_pd : (ℕ → ℕ) → ℕ → ℕ → Option ℕ
walk_pd mem table v =
    let e = table_entry mem table (v / 2 ^ 21 % 512) in
    if is_present e == 0
    then none
    else if is_page e == 0
    then walk_pt mem (address e) v
    else some (in_page (2 ^ 21) e v)

unfoldable pub walk_pdpt : (ℕ → ℕ) → ℕ → ℕ → Option ℕ
walk_pdpt mem table v =
    let e = table_entry mem table (v / 2 ^ 30 % 512) in
    if is_present e == 0
    then none
    else if is_page e == 0
    then walk_pd mem (address e) v
    else some (in_page (2 ^ 30) e v)

unfoldable pub page_walk : (ℕ → ℕ) → ℕ → ℕ → Option ℕ
page_walk mem cr3 v =
    let e = table_entry mem cr3 (v / 2 ^ 39 % 512) in
    if is_present e == 0 then none else walk_pdpt mem (address e) v
