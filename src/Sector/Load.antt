-- ===== src/Sector/Load.antt =====
-- `load_kernel` against a disk whose sectors have contents.
use mathlib.Core.Path.{subst}
use nadir_kernel.Base.{
  ℕ, zero, suc, ◌+◌, ◌-◌, ◌*◌, ◌%◌, ◌^◌, ◌≤◌, ◌<◌, ◌≡◌, refl, ap, ◌∙◌, Bool, true, false, ◌&&◌,
  Option, none, some, arith, leb, ◌==◌, if◌then◌else◌, Bool-cases, inl, inr,
}
use nadir_kernel.Base.Ram.{within}
use nadir_kernel.Sector.Disk.{
  kernel_load_seg, lba_to_chs, Drive, Variables, buffer, attempt, advance, Outcome, loaded, halted,
  load_next, load_kernel,
}
use nadir_kernel.Sector.Geometry.{lba_to_chs-Names}
use nadir_kernel.Sector.Tries.{IsDrive, readable, all_readable, Tried, gave_up, read, attempt-Tried}

-- The variables with `k` sectors read and `n` left.
record IsAt (k n : ℕ) (v : Variables) : Type 0 where
  place : buffer v ≡ 0x1_0000 + 512 * k
  aligned : v.buf_off % 512 ≡ 0
  off_small : v.buf_off < 65536
  number : v.lba ≡ k + 1
  left : v.sectors_left ≡ n

IsAt-advance :
    (k n : ℕ) (v : Variables)
    → k + suc (suc n) ≤ 768
    → IsAt k (suc (suc n)) v
    → IsAt (k + 1) (suc n) (advance v)
unfolding advance
IsAt-advance k n v room s = elim (Bool-cases (leb (2 ^ 16) (v.buf_off + 512))) [
  | inl wraps ↦
      let last : v.buf_off ≡ 65024 = ground (arith, wraps, s.aligned, s.off_small) in
      record {
        place = rw wraps (omega (arith, last, s.place));
        aligned = omega (arith, last);
        off_small = omega arith;
        number = omega (arith, s.number);
        left = omega (arith, s.left);
      }
  | inr stays ↦
      let below : v.buf_off + 512 < 65536 = ground (arith, stays) in
      record {
        place = rw stays (omega (arith, below, s.place));
        aligned = omega (arith, s.aligned, below);
        off_small = omega arith;
        number = omega (arith, s.number);
        left = omega (arith, s.left);
      }
]

-- The sectors of the kernel in memory, `n` of them after the first `k`.
pub record Loaded (k n : ℕ) (image : ℕ → ℕ → ℕ) (mem after : ℕ → ℕ) : Type 0 where
  pub content :
      (i j : ℕ) → i < n → j < 512 → after (0x1_0000 + 512 * (k + i) + j) ≡ image (1 + (k + i)) j
  pub rest : (a : ℕ) → within (0x1_0000 + 512 * k) (512 * n) a ≡ false → after a ≡ mem a

-- How loading ends.
pub data Ends (can : Bool) (k n : ℕ) (image : ℕ → ℕ → ℕ) (mem : ℕ → ℕ) : Outcome → Type 0 where
  complete :
      can ≡ true
      → (after : ℕ → ℕ) → Loaded k n image mem after
      → Ends can k n image mem (loaded after)
  stuck : can ≡ false → Ends can k n image mem halted

-- One sector, then the others.
Loaded-cons :
    (k n : ℕ) (image : ℕ → ℕ → ℕ) (address : ℕ) (mem m after : ℕ → ℕ)
    → address ≡ 0x1_0000 + 512 * k
    → ((j : ℕ) → j < 512 → m (address + j) ≡ image (k + 1) j)
    → ((a : ℕ) → within address 512 a ≡ false → m a ≡ mem a)
    → Loaded (k + 1) n image m after
    → Loaded k (suc n) image mem after
Loaded-cons k n image address mem m after e is rest l = record {
  content = λ i j lt small. elim (Bool-cases (i == 0)) [
    | inl first ↦
        let here : 0x1_0000 + 512 * (k + i) + j ≡ address + j = ground (arith, first, e) in
        let sector : 1 + (k + i) ≡ k + 1 = ground (arith, first) in
        rw (here, sector) (l.rest (address + j) (ground (arith, e)) ∙ is j small)
    | inr later ↦
        let pred : k + i ≡ k + 1 + (i - 1) = ground (arith, later) in
        rw pred (l.content (i - 1) j (ground (arith, later)) small)
  ];
  rest = λ a off. l.rest a (ground (arith, off)) ∙ rest a (ground (arith, e, off));
}

Ends-cons :
    (can : Bool) (k n : ℕ) (image : ℕ → ℕ → ℕ) (address : ℕ) (mem m : ℕ → ℕ) (r : Outcome)
    → address ≡ 0x1_0000 + 512 * k
    → ((j : ℕ) → j < 512 → m (address + j) ≡ image (k + 1) j)
    → ((a : ℕ) → within address 512 a ≡ false → m a ≡ mem a)
    → Ends can (k + 1) n image m r
    → Ends can k (suc n) image mem r
Ends-cons can k n image address mem m r e is rest (complete all after l) =
    complete all after (Loaded-cons k n image address mem m after e is rest l)
Ends-cons can k n image address mem m r e is rest (stuck some') = stuck some'

Loaded-none : (k : ℕ) (image : ℕ → ℕ → ℕ) (mem : ℕ → ℕ) → Loaded k 0 image mem mem
Loaded-none k image mem = record {
  content = λ i j lt small. ground (arith, lt);
  rest = λ a off. refl;
}

-- The end of a sector's tries decides how the loop goes on.
Ends-Tried :
    (can others : Bool) (k n : ℕ) (image : ℕ → ℕ → ℕ) (address : ℕ) (mem : ℕ → ℕ)
    (r : Option (ℕ → ℕ)) (next : (ℕ → ℕ) → Outcome)
    → address ≡ 0x1_0000 + 512 * k
    → Tried can (image (k + 1)) address mem r
    → ((m : ℕ → ℕ) → Ends others (k + 1) n image m (next m))
    → Ends (can && others) k (suc n) image mem (elim r [ none ↦ halted | some m ↦ next m ])
Ends-Tried can others k n image address mem r next e (gave_up never) h = stuck (rw never refl)
Ends-Tried can others k n image address mem r next e (read found after is rest) h =
    rw found (Ends-cons others k n image address mem after (next after) e is rest (h after))

-- The tries of the sector that the variables name.
sector-Tried :
    (k n : ℕ) (drive : Drive) (image : ℕ → ℕ → ℕ) (v : Variables) (mem : ℕ → ℕ)
    → IsDrive drive image
    → k + suc n ≤ 768
    → IsAt k (suc n) v
    → Tried
        (readable 3 0 drive (lba_to_chs (k + 1)))
        (image (k + 1))
        (buffer v)
        mem
        (attempt 3 0 drive (lba_to_chs v.lba) (buffer v) mem)
sector-Tried k n drive image v mem d room s =
    let named : lba_to_chs v.lba ≡ lba_to_chs (k + 1) = ap lba_to_chs (omega (arith, s.number)) in
    rw named (
      subst
        (λ (x : ℕ).
          Tried (readable 3 0 drive (lba_to_chs (k + 1))) (image x) (buffer v) mem
            (attempt 3 0 drive (lba_to_chs (k + 1)) (buffer v) mem))
        (lba_to_chs-Names (k + 1) (omega arith)).number
        (attempt-Tried 3 0 drive image (lba_to_chs (k + 1)) (buffer v) mem d))

load_next-Ends :
    (n fuel k : ℕ) (drive : Drive) (image : ℕ → ℕ → ℕ) (v : Variables) (mem : ℕ → ℕ)
    → IsDrive drive image
    → n ≤ fuel
    → k + suc n ≤ 768
    → IsAt k (suc n) v
    → Ends
        (all_readable (suc n) (k + 1) drive)
        k
        (suc n)
        image
        mem
        (load_next (suc fuel) drive v mem)
unfolding load_next all_readable
load_next-Ends zero fuel k drive image v mem d enough room s =
    Ends-Tried (readable 3 0 drive (lba_to_chs (k + 1))) true k 0 image (buffer v) mem _
      (λ m. if (advance v).sectors_left == 0 then loaded m else load_next fuel drive (advance v) m)
      s.place (sector-Tried k 0 drive image v mem d room s)
      (λ m.
        let last : ((advance v).sectors_left == 0) ≡ true =
          unfold advance in ground (arith, s.left) in
        rw last (complete refl m (Loaded-none (k + 1) image m)))
load_next-Ends (suc n) zero k drive image v mem d enough room s = ground (arith, enough)
load_next-Ends (suc n) (suc fuel) k drive image v mem d enough room s =
    Ends-Tried (readable 3 0 drive (lba_to_chs (k + 1))) (all_readable (suc n) (k + 1 + 1) drive) k
      (suc n) image (buffer v) mem _
      (λ m.
        if (advance v).sectors_left == 0
        then loaded m
        else load_next (suc fuel) drive (advance v) m)
      s.place (sector-Tried k (suc n) drive image v mem d room s)
      (λ m.
        let next = IsAt-advance k n v room s in
        let more : ((advance v).sectors_left == 0) ≡ false = ground (arith, next.left) in
        rw more (
          load_next-Ends n fuel (k + 1) drive image (advance v) m d (omega arith) (omega arith)
            next))

abbrev first_round : ℕ → Variables
first_round n = record { buf_seg = kernel_load_seg; buf_off = 0; lba = 1; sectors_left = n }

-- A kernel of 1 to 768 sectors, which ends below 0x70000, is either loaded whole or the boot sector halts. It
-- is loaded exactly if each of its sectors can be read in three tries; then the bytes of the sectors
-- from sector 1 on stand in order from 0x10000 on, over every segment boundary, and nothing else is
-- written. The loop always ends.
pub load_kernel-Ends :
    (n : ℕ) (drive : Drive) (image : ℕ → ℕ → ℕ) (mem : ℕ → ℕ)
    → IsDrive drive image
    → 1 ≤ n
    → n ≤ 768
    → Ends (all_readable n 1 drive) 0 n image mem (load_kernel n drive mem)
unfolding load_kernel
load_kernel-Ends zero drive image mem d least most = ground (arith, least)
load_kernel-Ends (suc n) drive image mem d least most =
    load_next-Ends n 65535 0 drive image (first_round (suc n)) mem d (omega arith) (omega arith)
      (record { place = refl; aligned = refl; off_small = omega arith; number = refl; left = refl })
