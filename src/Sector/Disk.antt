-- ===== src/Sector/Disk.antt =====
-- kernel/arch/x86_64/boot.asm: how the boot sector reads the kernel. The disk functions of the BIOS are a
-- parameter: what a read of a sector returns at each try. The variables lie in the boot sector, apart
-- from the memory that the reads go to; they are a record.
use Prim.Native.Nat.{bit_and, bit_or}
use nadir_kernel.Base.{
  ℕ, zero, suc, ◌+◌, ◌*◌, ◌/◌, ◌%◌, ◌^◌, Bool, Option, none, some, leb, ◌==◌, if◌then◌else◌,
}
use nadir_kernel.Base.Ram.{store_bytes}

abbrev pub kernel_load_seg : ℕ
kernel_load_seg = 0x1000

abbrev pub spt : ℕ
spt = 18

abbrev pub heads : ℕ
heads = 2

-- The registers that name a sector in a call of `int 0x13`.
pub record Chs : Type 0 where
  pub ch : ℕ
  pub cl : ℕ
  pub dh : ℕ

unfoldable pub lba_to_chs : ℕ → Chs
lba_to_chs ax =
    let sector = ax % spt + 1 in
    let track = ax / spt in
    let cylinder = track / heads in
    record {
      ch = cylinder % 256;
      cl = bit_or (sector % 256) (bit_and (cylinder / 4 % 256) 0xc0);
      dh = track % heads % 256;
    }

-- What a read returns: the carry flag, and the bytes that it has written to the buffer.
pub record Read : Type 0 where
  pub carry : Bool
  pub size : ℕ
  pub bytes : ℕ → ℕ

-- A read of a sector, with the number of failed tries before it.
abbrev pub Drive : Type 0
Drive = Chs → ℕ → Read

-- The variables of `load_kernel`.
pub record Variables : Type 0 where
  pub buf_seg : ℕ
  pub buf_off : ℕ
  pub lba : ℕ
  pub sectors_left : ℕ

abbrev pub buffer : Variables → ℕ
buffer v = v.buf_seg * 16 + v.buf_off

-- `.attempt`, with the tries left; `none` after the last.
unfoldable pub attempt : ℕ → ℕ → Drive → Chs → ℕ → (ℕ → ℕ) → Option (ℕ → ℕ)
attempt zero failed drive chs address mem = none
attempt (suc tries) failed drive chs address mem =
    let r = drive chs failed in
    let mem = store_bytes r.size r.bytes address mem in
    let rest = attempt tries (failed + 1) drive chs address mem in
    if r.carry then rest else some mem

-- `.ok` and `.no_carry`
unfoldable pub advance : Variables → Variables
advance v = record {
  buf_off = (v.buf_off + 512) % 2 ^ 16;
  buf_seg = if leb (2 ^ 16) (v.buf_off + 512) then (v.buf_seg + 0x1000) % 2 ^ 16 else v.buf_seg;
  lba = (v.lba + 1) % 2 ^ 16;
  sectors_left = (v.sectors_left + 0xffff) % 2 ^ 16;
}

-- How `load_kernel` ends: with the kernel in memory, halted with a message, or out of fuel.
pub data Outcome : Type 0 where
  loaded : (ℕ → ℕ) → Outcome
  halted out_of_fuel : Outcome

unfoldable pub load_next : ℕ → Drive → Variables → (ℕ → ℕ) → Outcome
load_next zero drive v mem = out_of_fuel
load_next (suc fuel) drive v mem = elim (attempt 3 0 drive (lba_to_chs v.lba) (buffer v) mem) [
  | none ↦ halted
  | some mem' ↦
      let rest = load_next fuel drive (advance v) mem' in
      if (advance v).sectors_left == 0 then loaded mem' else rest
]

-- `load_kernel`, with KERNEL_SECTORS. The counter has 16 bits, so the loop has at most 2 ^ 16 rounds.
unfoldable pub load_kernel : ℕ → Drive → (ℕ → ℕ) → Outcome
load_kernel kernel_sectors drive mem =
    load_next (2 ^ 16) drive
      (record { buf_seg = kernel_load_seg; buf_off = 0; lba = 1; sectors_left = kernel_sectors })
      mem
