-- ===== src/Sector.antt =====
-- kernel/arch/x86_64/boot.asm: how the boot sector asks the BIOS for the memory map, and how it loads the
-- kernel. Memory is a function from an address to the byte there; it stands for the memory besides the
-- BIOS's own data, the stack, the boot sector and the screen. The variables of the sector (`e820_next`
-- here) are arguments or fields of records, as the static variables of the C files are. The BIOS is a
-- parameter: an answer to each call, which may depend on the number of calls before it.
pub mod Regions
pub mod Loop
pub mod Query
pub mod Staging
pub mod Frames
pub mod Disk
pub mod Geometry
pub mod Tries
pub mod Load
pub mod Start
pub mod Handoff
mod Examples
use mathlib.Core.Option
use nadir_kernel.Base.{
  ℕ, zero, suc, ◌+◌, ◌*◌, ◌%◌, Bool, true, false, not, Option, none, some, leb, ◌==◌, if◌then◌else◌,
  update,
}
use nadir_kernel.Base.Ram.{put_le, store_bytes}

abbrev pub e820_count : ℕ
e820_count = 0x5000

abbrev pub e820_buf : ℕ
e820_buf = 0x5020

abbrev pub e820_max : ℕ
e820_max = 64

abbrev pub e820_entry_size : ℕ
e820_entry_size = 24

-- 'SMAP'
abbrev pub smap : ℕ
smap = 0x534d4150

-- What `int 0x15` returns for a memory map: the carry flag, two registers, and the bytes that it has
-- written to the buffer.
pub record Reply : Type 0 where
  pub carry : Bool
  pub eax : ℕ
  pub ebx : ℕ
  pub size : ℕ
  pub bytes : ℕ → ℕ

-- The reply to a call: the number of calls before it, and the continuation in ebx.
abbrev pub Bios : Type 0
Bios = ℕ → ℕ → Reply

-- `.loop` of `query_e820`, on fuel.
unfoldable pub query_loop : ℕ → Bios → ℕ → ℕ → (ℕ → ℕ) → Option (ℕ → ℕ)
query_loop zero bios calls e820_next mem = none
query_loop (suc fuel) bios calls e820_next mem =
    let reply = bios calls e820_next in
    let mem =
      store_bytes reply.size reply.bytes (e820_buf + mem e820_count % 256 * e820_entry_size) mem in
    let counted = update mem e820_count ((mem e820_count + 1) % 256) in
    let rest = query_loop fuel bios (calls + 1) reply.ebx counted in
    if reply.carry
    then some mem
    else if not (reply.eax == smap)
    then some mem
    else if leb e820_max (mem e820_count)
    then some mem
    else if reply.ebx == 0
    then some counted
    else rest

-- `.done`
unfoldable pub query_fallback : (ℕ → ℕ) → ℕ → ℕ
query_fallback mem =
    let one = put_le 4 e820_buf 0x0010_0000 mem in
    let one = put_le 4 (e820_buf + 4) 0 one in
    let one = put_le 4 (e820_buf + 8) 0x07f0_0000 one in
    let one = put_le 4 (e820_buf + 12) 0 one in
    let one = put_le 4 (e820_buf + 16) 1 one in
    if not (mem e820_count == 0) then mem else update one e820_count ((one e820_count + 1) % 256)

-- A reply to the 65th call is still stored, but not counted.
unfoldable pub query_e820 : Bios → (ℕ → ℕ) → Option (ℕ → ℕ)
query_e820 bios mem = Option.map query_fallback (query_loop 65 bios 0 0 (update mem e820_count 0))
