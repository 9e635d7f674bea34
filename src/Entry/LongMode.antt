-- ===== src/Entry/LongMode.antt =====
-- The 32-bit part of kernel/arch/x86_64/entry.asm: the test for long mode, the control registers, the
-- segments, and the message where long mode is missing. Video memory is a function from an address to
-- the 16-bit cell there.
use nadir_kernel.Base.{
  ℕ, zero, suc, ◌+◌, ◌*◌, ◌/◌, ◌%◌, ◌^◌, ◌<◌, ◌≡◌, Bool, true, false, ◌&&◌, List, [], ◌∷◌, ◌++◌,
  none, some, ltb, leb, ◌==◌, if◌then◌else◌, update, codes,
}
use nadir_kernel.Base.Ram.{within}
use nadir_kernel.Idt.{kernel_cs}
use nadir_kernel.Entry.{pml4, page_tables, page_walk}

-- What `cpuid` returns for a leaf.
pub record Leaf : Type 0 where
  pub eax : ℕ
  pub edx : ℕ

-- The registers that control the mode; efer is the whole model-specific register.
pub record Control : Type 0 where
  pub cr0 : ℕ
  pub cr3 : ℕ
  pub cr4 : ℕ
  pub efer : ℕ

abbrev pub bit : ℕ → ℕ → ℕ
bit k x = x / 2 ^ k % 2

-- `x | 1 << k`
abbrev pub or_bit : ℕ → ℕ → ℕ
or_bit k x = if bit k x == 0 then x + 2 ^ k else x

-- From `mov cr3, eax` to `mov cr0, eax`.
unfoldable pub enable_long_mode : Control → Control
enable_long_mode c = record {
  cr3 = pml4;
  cr4 = or_bit 5 c.cr4;
  efer = or_bit 8 c.efer;
  cr0 = or_bit 31 c.cr0;
}

abbrev pub gdt64 : List ℕ
gdt64 =
    0x0000000000000000 ∷ 0x00CF9A000000FFFF ∷ 0x00CF92000000FFFF ∷ 0x00209A0000000000
    ∷ 0x0000920000000000 ∷ []

-- With the NUL at its end.
abbrev pub err_nolm : List ℕ
err_nolm = codes "ERR: CPU has no 64-bit long mode" ++ (0 ∷ [])

-- The loop `.print`.
unfoldable pub print_text : List ℕ → ℕ → (ℕ → ℕ) → ℕ → ℕ
print_text [] edi video = video
print_text (al ∷ text) edi video =
    let rest = print_text text (edi + 2) (update video edi (0x4f * 256 + al)) in
    if al == 0 then video else rest

-- How the 32-bit part ends: with the far jump to `long_entry` through a segment of a table of descriptors,
-- or in the loop `.hang` with a message on the screen.
pub data Stage2 : Type 0 where
  long_mode : List ℕ → ℕ → Control → (ℕ → ℕ) → Stage2
  no_longmode : (ℕ → ℕ) → Stage2

unfoldable pub boot32_entry : (ℕ → Leaf) → Control → (ℕ → ℕ) → (ℕ → ℕ) → Stage2
boot32_entry cpuid c video mem =
    if ltb (cpuid 0x80000000).eax 0x80000001
    then no_longmode (print_text err_nolm 0xB8000 video)
    else if bit 29 (cpuid 0x80000001).edx == 0
    then no_longmode (print_text err_nolm 0xB8000 video)
    else long_mode gdt64 0x18 (enable_long_mode c) (page_tables mem)

-- The processor has the extended leaf, and it reports long mode.
unfoldable pub has_long_mode : (ℕ → Leaf) → Bool
has_long_mode cpuid = leb 0x80000001 (cpuid 0x80000000).eax && bit 29 (cpuid 0x80000001).edx == 1

-- The descriptor that a selector names.
unfoldable pub descriptor : ℕ → List ℕ → ℕ
descriptor i [] = 0
descriptor zero (d ∷ ds) = d
descriptor (suc i) (d ∷ ds) = descriptor i ds

-- A present segment of code for ring 0 in 64-bit mode.
unfoldable pub is_code64 : ℕ → Bool
is_code64 d =
    bit 47 d == 1
    && bit 45 d == 0
    && bit 46 d == 0
    && bit 44 d == 1
    && bit 43 d == 1
    && bit 53 d == 1
    && bit 54 d == 0

-- Register `x'` is `x` with bit `k` set.
pub record HasBit (k x x' : ℕ) : Type 0 where
  pub set : bit k x' ≡ 1
  pub below : x' % 2 ^ k ≡ x % 2 ^ k
  pub above : x' / 2 ^ (k + 1) ≡ x / 2 ^ (k + 1)

-- What the processor is like at `long_entry`.
pub record InLongMode (c : Control) (gdt : List ℕ) (cs : ℕ) (c' : Control) (mem : ℕ → ℕ)
    : Type 0 where
  pub pae : HasBit 5 c.cr4 c'.cr4
  pub lme : HasBit 8 c.efer c'.efer
  pub pg : HasBit 31 c.cr0 c'.cr0
  pub code : is_code64 (descriptor (cs / 8) gdt) ≡ true
  pub gates : cs ≡ kernel_cs
  pub walk :
      (v : ℕ) → v < 2 ^ 47 → page_walk mem c'.cr3 v ≡ (if ltb v (2 ^ 30) then some v else none)

-- A text from an address on, white on red.
abbrev pub Shown : List ℕ → ℕ → (ℕ → ℕ) → Type 0
Shown [] edi video = Unit
Shown (c ∷ cs) edi video = (video edi ≡ 0x4f00 + c) × Shown cs (edi + 2) video

pub data Entered (can : Bool) (c : Control) (video : ℕ → ℕ) : Stage2 → Type 0 where
  entered :
      can ≡ true
      → (gdt : List ℕ) (cs : ℕ) (c' : Control) (mem : ℕ → ℕ) → InLongMode c gdt cs c' mem
      → Entered can c video (long_mode gdt cs c' mem)
  refused :
      can ≡ false
      → (after : ℕ → ℕ) → Shown (codes "ERR: CPU has no 64-bit long mode") 0xb8000 after
      → ((a : ℕ) → within 0xb8000 64 a ≡ false → after a ≡ video a)
      → Entered can c video (no_longmode after)
