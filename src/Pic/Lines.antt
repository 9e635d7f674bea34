-- ===== src/Pic/Lines.antt =====
-- Which interrupt lines are masked, as the mask registers of the two controllers have it.
use nadir_kernel.Base.{
  ℕ, ◌%◌, ◌<◌, ◌≡◌, refl, ap, ◌∙◌, Bool, true, false, not, ◌&&◌, ◌||◌, ◌∷◌, arith, ltb, leb, ◌==◌,
  if◌then◌else◌, Bool-cases, inl, inr, lt→leb,
}
use nadir_kernel.Base.Bits.{
  all_below, all_below_sound, set_flag, clear_flag, has_flag, has_flag-set_flag,
  has_flag-clear_flag, set_flag-lt, clear_flag-lt,
}
use nadir_kernel.Io.{Log, put, got, Bus, inb, outb, io_wait}
use nadir_kernel.Io.Writes.{last_put}
use nadir_kernel.Pic.{outb_slow, pic_remap, mask_port, pic_mask, pic_unmask}

-- What the controllers do, by their manual: outside initialisation, a read of a data port returns the
-- mask, which is what was last written there.
pub record Latches (bus : Bus) (log : Log) : Type 0 where
  pub reads : (irq : ℕ) → irq < 16 → bus log (mask_port irq) % 256 ≡ last_put (mask_port irq) log

unfoldable pub is_masked : ℕ → Log → Bool
is_masked irq log = has_flag (last_put (mask_port irq) log) (irq % 8)

-- The log after a change of one line's mask, with the byte that was written.
changed : ℕ → ℕ → Bus → Log → Log
changed irq value bus log =
    put (mask_port irq) value ∷ got (mask_port irq) (bus log (mask_port irq) % 256) ∷ log

is_masked-changed :
    (irq value : ℕ) (bus : Bus) (log : Log) (i : ℕ)
    → irq < 16
    → i < 16
    → is_masked i (changed irq value bus log) ≡ (
        if (ltb irq 8 && ltb i 8) || (leb 8 irq && leb 8 i)
        then has_flag value (i % 8)
        else is_masked i log)
unfolding is_masked changed last_put
is_masked-changed irq value bus log i h hi = ground arith

abbrev same_chip : ℕ → ℕ → Bool
same_chip irq i = (ltb irq 8 && ltb i 8) || (leb 8 irq && leb 8 i)

same_chip-mask_port :
    (irq i : ℕ)
    → irq < 16
    → i < 16
    → same_chip irq i ≡ true
    → (mask_port irq ≡ mask_port i) × ((irq % 8 == i % 8) ≡ (i == irq))
same_chip-mask_port irq i h hi e = (ground arith, ground arith)

other_chip : (irq i : ℕ) → irq < 16 → i < 16 → same_chip irq i ≡ false → (i == irq) ≡ false
other_chip irq i h hi e = ground arith

small_read : (bus : Bus) (log : Log) (port : ℕ) → bus log port % 256 < 256
small_read bus log port = omega arith

pic_unmask-changed :
    (bus : Bus) (log : Log) (irq : ℕ)
    → irq < 16
    → pic_unmask bus irq log
      ≡ changed irq (clear_flag (bus log (mask_port irq) % 256) (irq % 8)) bus log
unfolding pic_unmask inb outb changed
pic_unmask-changed bus log irq h =
    let b = bus log (mask_port irq) % 256 in
    let byte : clear_flag b (irq % 8) % 256 ≡ clear_flag b (irq % 8) =
      omega (arith, clear_flag-lt b (irq % 8) (omega arith) (omega arith)) in
    rw (lt→leb 16 irq h, byte) refl

pic_mask-changed :
    (bus : Bus) (log : Log) (irq : ℕ)
    → irq < 16
    → pic_mask bus irq log
      ≡ changed irq (set_flag (bus log (mask_port irq) % 256) (irq % 8)) bus log
unfolding pic_mask inb outb changed
pic_mask-changed bus log irq h =
    let b = bus log (mask_port irq) % 256 in
    let byte : set_flag b (irq % 8) % 256 ≡ set_flag b (irq % 8) =
      omega (arith, set_flag-lt b (irq % 8) (omega arith) (omega arith)) in
    rw (lt→leb 16 irq h, byte) refl

-- `pic_unmask` enables the line it is given and leaves the other 15 lines of the two controllers as they
-- were, provided that a read of a data port returns the mask last written there.
pub pic_unmask-is_masked :
    (bus : Bus) (log : Log) (irq i : ℕ)
    → Latches bus log
    → irq < 16
    → i < 16
    → is_masked i (pic_unmask bus irq log) ≡ (not (i == irq) && is_masked i log)
pic_unmask-is_masked bus log irq i latch h hi =
    let b = bus log (mask_port irq) % 256 in
    ap (is_masked i) (pic_unmask-changed bus log irq h)
    ∙ is_masked-changed irq (clear_flag b (irq % 8)) bus log i h hi
    ∙ elim (Bool-cases (same_chip irq i)) [
      | inl same ↦
          let (port, bit) = same_chip-mask_port irq i h hi same in
          rw
            (
              same,
              has_flag-clear_flag b (irq % 8) (i % 8) (omega arith) (omega arith) (omega arith),
              bit,
              latch.reads irq h,
              port,
            )
            (unfold is_masked in refl)
      | inr other ↦ let ne = other_chip irq i h hi other in rw (other, ne) refl
    ]

-- `pic_mask` masks the line it is given and leaves the other 15 lines of the two controllers as they
-- were, provided that a read of a data port returns the mask last written there.
pub pic_mask-is_masked :
    (bus : Bus) (log : Log) (irq i : ℕ)
    → Latches bus log
    → irq < 16
    → i < 16
    → is_masked i (pic_mask bus irq log) ≡ (i == irq || is_masked i log)
pic_mask-is_masked bus log irq i latch h hi =
    let b = bus log (mask_port irq) % 256 in
    ap (is_masked i) (pic_mask-changed bus log irq h)
    ∙ is_masked-changed irq (set_flag b (irq % 8)) bus log i h hi
    ∙ elim (Bool-cases (same_chip irq i)) [
      | inl same ↦
          let (port, bit) = same_chip-mask_port irq i h hi same in
          rw
            (
              same,
              has_flag-set_flag b (irq % 8) (i % 8) (omega arith) (omega arith) (omega arith),
              bit,
              latch.reads irq h,
              port,
            )
            (unfold is_masked in refl)
      | inr other ↦ let ne = other_chip irq i h hi other in rw (other, ne) refl
    ]

all_set_table : all_below 8 (has_flag 255) ≡ true
unfolding all_below has_flag
all_set_table = refl

all_set : (i : ℕ) → i < 8 → has_flag 255 i ≡ true
all_set i h = all_below_sound 8 (has_flag 255) i all_set_table h

last_put-pic_remap : (log : Log) (i : ℕ) → last_put (mask_port i) (pic_remap log) ≡ 255
unfolding pic_remap outb_slow io_wait outb last_put
last_put-pic_remap log i = elim (Bool-cases (ltb i 8)) [
  | inl master ↦ rw master
  | inr slave ↦ rw slave
]

-- After `pic_remap` all 16 lines are masked, whatever was written before.
pub is_masked-pic_remap : (log : Log) (i : ℕ) → is_masked i (pic_remap log) ≡ true
unfolding is_masked
is_masked-pic_remap log i = rw (last_put-pic_remap log i) (all_set (i % 8) (omega arith))
