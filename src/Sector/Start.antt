-- ===== src/Sector/Start.antt =====
-- kernel/arch/x86_64/boot.asm as a whole, from `start` to the jump to the stage-2 entry. What the BIOS prints
-- is a list of characters, oldest first, in place of the cells of the screen; `boot_drive` goes to the BIOS
-- only, as part of the parameter for the drive. The call of the BIOS for the A20 gate returns nothing that
-- the code uses. The processor's mode is that of its last jump.
use Prim.Native.Nat.{bit_or}
use nadir_kernel.Base.{ℕ, ◌/◌, ◌%◌, List, [], ◌∷◌, ◌++◌, none, some, ◌==◌, if◌then◌else◌, codes}
use nadir_kernel.Io.{Bus, Log, inb, outb}
use nadir_kernel.Sector.{Bios, query_e820}
use nadir_kernel.Sector.Disk.{Drive, loaded, halted, out_of_fuel, load_kernel}

-- `puts`, on a text with a NUL
unfoldable pub puts : List ℕ → List ℕ → List ℕ
puts [] shown = shown
puts (al ∷ text) shown =
    let rest = puts text (shown ++ (al ∷ [])) in if al == 0 then shown else rest

unfoldable pub enable_a20 : Bus → Log → Log
enable_a20 bus log =
    let (al, log) = inb bus 0x92 log in
    if al / 2 % 2 == 0 then outb 0x92 (bit_or al 0x02) log else log

abbrev pub gdt : List ℕ
gdt = 0x0000000000000000 ∷ 0x00CF9A000000FFFF ∷ 0x00CF92000000FFFF ∷ []

abbrev pub msg_loading : List ℕ
msg_loading = codes "Nadir: load" ++ (0x0d ∷ 0x0a ∷ 0 ∷ [])

abbrev pub msg_entering : List ℕ
msg_entering = codes "Nadir: pmode" ++ (0x0d ∷ 0x0a ∷ 0 ∷ [])

abbrev pub msg_disk_err : List ℕ
msg_disk_err = codes "Nadir: disk err" ++ (0x0d ∷ 0x0a ∷ 0 ∷ [])

-- The processor at the jump out of the boot sector.
pub record Jump : Type 0 where
  pub descriptors : List ℕ
  pub cs : ℕ
  pub data_segment : ℕ
  pub esp : ℕ
  pub eip : ℕ

-- From `jmp 0x08:prot32` on.
unfoldable pub prot32 : Jump
prot32 = record { descriptors = gdt; cs = 0x08; data_segment = 0x10; esp = 0x90000; eip = 0x10000 }

-- How stage 1 ends; each with what is on the screen.
pub data Stage1 : Type 0 where
  jumps : Jump → (ℕ → ℕ) → Log → List ℕ → Stage1
  stops : Log → List ℕ → Stage1
  runs_on : Stage1

-- From the call of `query_e820` on.
unfoldable pub query_and_jump : Bios → (ℕ → ℕ) → Log → List ℕ → Stage1
query_and_jump bios mem log shown = elim (query_e820 bios mem) [
  | none ↦ runs_on
  | some mem ↦ jumps prot32 mem log (puts msg_entering shown)
]

unfoldable pub start : ℕ → Bios → Drive → Bus → (ℕ → ℕ) → Log → List ℕ → Stage1
start kernel_sectors bios drive bus mem log shown =
    let shown = puts msg_loading shown in
    let log = enable_a20 bus log in
    elim (load_kernel kernel_sectors drive mem) [
      | loaded mem ↦ query_and_jump bios mem log shown
      | halted ↦ stops log (puts msg_disk_err shown)
      | out_of_fuel ↦ runs_on
    ]
