-- ===== src/Entry/MemoryMap.antt =====
-- The end of kernel/arch/x86_64/entry.asm: .bss is zeroed, and the memory map that stage 1 has staged is
-- copied there. Memory is a function from an address to the byte there; the addresses that the linker
-- fixes are a record.
use nadir_kernel.Base.{
  ℕ, ◌+◌, ◌-◌, ◌*◌, ◌%◌, ◌^◌, ◌≤◌, ◌<◌, ◌≡◌, refl, ap, ◌∙◌, true, false, ◌||◌, arith, leb, ◌==◌,
  if◌then◌else◌, sub64, Bool-cases, inl, inr,
}
use nadir_kernel.Base.Ram.{
  get_le, put_le, zero_bytes, copy_bytes, within, zero_bytes_lem, copy_bytes_lem, get_le-eq,
  get_le-lt, put_le_off, get_le-put_le,
}
use nadir_kernel.Pmm.{E820Entry, e820_max}
use nadir_kernel.Pmm.Release.{IsEntry}

abbrev pub memmap_count_phys : ℕ
memmap_count_phys = 0x5000

abbrev pub memmap_buf_phys : ℕ
memmap_buf_phys = 0x5020

abbrev pub e820_entry_size : ℕ
e820_entry_size = 24

-- `__bss_start`, `__bss_end`, and the addresses of `memmap_count` and `memmap_entries`
pub record Layout : Type 0 where
  pub bss_start : ℕ
  pub bss_end : ℕ
  pub memmap_count : ℕ
  pub memmap_entries : ℕ

unfoldable pub clamp : ℕ → ℕ
clamp count = if leb count e820_max then count else e820_max

-- From `mov rdi, __bss_start` to `.map_done`.
unfoldable pub long_entry : Layout → (ℕ → ℕ) → ℕ → ℕ
long_entry l mem =
    let mem = zero_bytes (sub64 l.bss_end l.bss_start) l.bss_start mem in
    let count = clamp (mem memmap_count_phys % 256) in
    let mem = put_le 4 l.memmap_count count mem in
    if count == 0
    then mem
    else copy_bytes (count * e820_entry_size) memmap_buf_phys l.memmap_entries mem

-- `struct e820_entry` at an address
unfoldable pub entry_at : (ℕ → ℕ) → ℕ → E820Entry
entry_at mem p = record {
  base = get_le 8 p mem;
  length = get_le 8 (p + 8) mem;
  type = get_le 4 (p + 16) mem;
  acpi_attr = get_le 4 (p + 20) mem;
}

-- What the linker script and the C declarations give: .bss lies behind the staging area, and holds the
-- two variables, which do not overlap.
pub record IsLinked (l : Layout) : Type 0 where
  pub start : 0x1_0000 ≤ l.bss_start
  pub order : l.bss_start ≤ l.bss_end
  pub fits : l.bss_end < 2 ^ 64
  pub count_start : l.bss_start ≤ l.memmap_count
  pub entries_start : l.bss_start ≤ l.memmap_entries
  pub count_end : l.memmap_count + 4 ≤ l.bss_end
  pub apart :
      (leb (l.memmap_count + 4) l.memmap_entries || leb (l.memmap_entries + 1536) l.memmap_count)
      ≡ true
  pub entries_end : l.memmap_entries + 1536 ≤ l.bss_end

-- What the C code finds.
pub record HandedOver (l : Layout) (mem mem' : ℕ → ℕ) : Type 0 where
  pub count : get_le 4 l.memmap_count mem' ≡ clamp (mem memmap_count_phys % 256)
  pub entries :
      (i : ℕ)
      → i < clamp (mem memmap_count_phys % 256)
      → entry_at mem' (l.memmap_entries + 24 * i) ≡ entry_at mem (memmap_buf_phys + 24 * i)
  pub zeroed :
      (a : ℕ)
      → within l.bss_start (l.bss_end - l.bss_start) a ≡ true
      → within l.memmap_count 4 a ≡ false
      → within l.memmap_entries 1536 a ≡ false
      → mem' a ≡ 0
  pub rest : (a : ℕ) → within l.bss_start (l.bss_end - l.bss_start) a ≡ false → mem' a ≡ mem a

pub clamp-le : (n : ℕ) → clamp n ≤ 64
unfolding clamp
clamp-le n = ground arith

entry_at-eq :
    (m m' : ℕ → ℕ) (a b : ℕ)
    → ((j : ℕ) → j < 24 → m (a + j) ≡ m' (b + j))
    → entry_at m a ≡ entry_at m' b
unfolding entry_at
entry_at-eq m m' a b h =
    let part = λ (n o : ℕ) (fits : n + o ≤ 24).
      get_le-eq n (a + o) (b + o) m m'
        (λ j lt. ap m (omega arith) ∙ h (o + j) (omega arith) ∙ ap m' (omega arith)) in
    λ i. record {
      base = get_le-eq 8 a b m m' (λ j lt. h j (omega arith)) i;
      length = part 8 8 (omega arith) i;
      type = part 4 16 (omega arith) i;
      acpi_attr = part 4 20 (omega arith) i;
    }

-- `.bss` after `rep stosb`.
abbrev zeroed_bss : Layout → (ℕ → ℕ) → ℕ → ℕ
zeroed_bss l mem = zero_bytes (sub64 l.bss_end l.bss_start) l.bss_start mem

zeroed_bss_lem :
    (l : Layout) (mem : ℕ → ℕ) (a : ℕ)
    → IsLinked l
    → zeroed_bss l mem a ≡ (if within l.bss_start (l.bss_end - l.bss_start) a then 0 else mem a)
zeroed_bss_lem l mem a k =
    let size : sub64 l.bss_end l.bss_start ≡ l.bss_end - l.bss_start = omega arith in
    ap (λ (n : ℕ). zero_bytes n l.bss_start mem a) size
    ∙ zero_bytes_lem (l.bss_end - l.bss_start) l.bss_start a mem

-- The staging area is as it was when the map is copied.
staged_lem :
    (l : Layout) (mem : ℕ → ℕ) (count a : ℕ)
    → IsLinked l
    → a < 0x1_0000
    → put_le 4 l.memmap_count count (zeroed_bss l mem) a ≡ mem a
staged_lem l mem count a k h =
    put_le_off 4 l.memmap_count count a (zeroed_bss l mem) (ground arith)
    ∙ zeroed_bss_lem l mem a k
    ∙ ground arith

-- The memory, byte by byte.
long_entry_at :
    (l : Layout) (mem : ℕ → ℕ) (a : ℕ)
    → IsLinked l
    → let count = clamp (mem memmap_count_phys % 256) in
      long_entry l mem a ≡ (
        if within l.memmap_entries (24 * count) a
        then mem (memmap_buf_phys + (a - l.memmap_entries))
        else put_le 4 l.memmap_count count (zeroed_bss l mem) a)
unfolding long_entry
long_entry_at l mem a k =
    let byte : zeroed_bss l mem 0x5000 ≡ mem 0x5000 =
      zeroed_bss_lem l mem 0x5000 k ∙ ground arith in
    let count = clamp (mem memmap_count_phys % 256) in
    let few = clamp-le (mem memmap_count_phys % 256) in
    let mem2 = put_le 4 l.memmap_count count (zeroed_bss l mem) in
    rw byte (elim (Bool-cases (count == 0)) [
      | inl none' ↦
          let outside : within l.memmap_entries (24 * count) a ≡ false = ground (arith, none') in
          rw (none', outside) refl
      | inr some' ↦ rw some' (
          copy_bytes_lem (count * 24) memmap_buf_phys l.memmap_entries a mem2 (omega arith)
          ∙ elim (Bool-cases (within l.memmap_entries (24 * count) a)) [
            | inl inside ↦
                let inside' : within l.memmap_entries (count * 24) a ≡ true =
                  ground (arith, inside) in
                rw (inside, inside')
                  (staged_lem l mem count (memmap_buf_phys + (a - l.memmap_entries)) k
                    (ground (arith, inside)))
            | inr outside ↦
                let outside' : within l.memmap_entries (count * 24) a ≡ false =
                  ground (arith, outside) in
                rw (outside, outside') refl
          ])
    ])

-- However memory stands, the C code finds at most 64 entries, and as many as stage 1 has staged if these
-- are no more; they are those entries, byte by byte. The rest of .bss is zero, and no other byte has
-- changed.
pub long_entry-HandedOver :
    (l : Layout) (mem : ℕ → ℕ) → IsLinked l → HandedOver l mem (long_entry l mem)
long_entry-HandedOver l mem k =
    let count = clamp (mem memmap_count_phys % 256) in
    let few = clamp-le (mem memmap_count_phys % 256) in
    let mem2 = put_le 4 l.memmap_count count (zeroed_bss l mem) in
    let elsewhere : (a : ℕ)
        → within l.memmap_entries (24 * count) a ≡ false
        → long_entry l mem a ≡ mem2 a =
      λ a off. long_entry_at l mem a k ∙ rw off refl in
    record {
      count =
          get_le-eq 4 l.memmap_count l.memmap_count (long_entry l mem) mem2
            (λ j lt. elsewhere (l.memmap_count + j) (ground (arith, k.apart)))
          ∙ get_le-put_le 4 l.memmap_count count (zeroed_bss l mem) (omega arith);
      entries = λ i lt.
          entry_at-eq (long_entry l mem) mem (l.memmap_entries + 24 * i) (memmap_buf_phys + 24 * i)
            (λ j hj.
              let inside : within l.memmap_entries (24 * count) (l.memmap_entries + 24 * i + j)
                  ≡ true =
                ground (arith, lt) in
              long_entry_at l mem (l.memmap_entries + 24 * i + j) k
              ∙ rw inside (ap mem (omega arith)));
      zeroed = λ a bss no_count no_entries.
          elsewhere a (ground (arith, no_entries))
          ∙ put_le_off 4 l.memmap_count count a (zeroed_bss l mem) no_count
          ∙ zeroed_bss_lem l mem a k
          ∙ rw bss refl;
      rest = λ a off.
          elsewhere a (ground (arith, off))
          ∙ put_le_off 4 l.memmap_count count a (zeroed_bss l mem) (ground (arith, off))
          ∙ zeroed_bss_lem l mem a k
          ∙ rw off refl;
    }

-- The fields of an entry in memory are 64-bit values.
pub entry_at-IsEntry : (mem : ℕ → ℕ) (p : ℕ) → IsEntry (entry_at mem p)
unfolding entry_at
entry_at-IsEntry mem p = record { base = get_le-lt 8 p mem; length = get_le-lt 8 (p + 8) mem }
