-- ===== src/Sector/Query.antt =====
-- `query_e820` against the memory map that the BIOS tells.
use mathlib.Core.Option
use nadir_kernel.Base.{
  true, leb, ltb, not, ◌&&◌, Bool, ℕ, zero, suc, ◌+◌, ◌≤◌, ◌≡◌, refl, ap, ◌∙◌, sym, false, List, [],
  ◌∷◌, Option, some, arith, length, ◌==◌, update, Bool-cases, inl, inr,
}
use nadir_kernel.Base.Ram.{get_le, put_le, put_le_off, within}
use nadir_kernel.Sector.{Bios, e820_count, e820_buf, query_fallback, query_e820}
use nadir_kernel.Sector.Regions.{
  Region, region_at, answers, assumed, or_assumed, memory_map, IsBios, Holds,
}
use nadir_kernel.Sector.Loop.{may_write, Looped, query_loop-Looped}

length-answers : (n : ℕ) (bios : Bios) (calls next : ℕ) → length (answers n bios calls next) ≤ n
unfolding answers
length-answers zero bios calls next = omega arith
length-answers (suc n) bios calls next =
    ground (arith, length-answers n bios (calls + 1) (bios calls next).ebx)

-- Memory below 512 KB besides the BIOS's own data and what the boot sector uses for itself: its stack, and
-- its variables, which lie in the sector. The buffer and one entry behind it are in front of the stack.
abbrev pub is_spare : ℕ → Bool
is_spare a = leb 0x500 a && ltb a 0x8_0000 && not (within 0x5638 0x27c8 a)

-- What `query_e820` leaves.
pub record Queried (bios : Bios) (mem : ℕ → ℕ) (r : Option (ℕ → ℕ)) : Type 0 where
  pub after : ℕ → ℕ
  pub result : r ≡ some after
  pub count : after e820_count ≡ length (memory_map bios)
  pub least : 1 ≤ length (memory_map bios)
  pub most : length (memory_map bios) ≤ 64
  pub holds : Holds after e820_buf (memory_map bios)
  pub rest : (a : ℕ) → is_spare a ≡ true → may_write 0 a ≡ false → after a ≡ mem a

-- The synthetic region.
fallback_region :
    (mem : ℕ → ℕ) → mem e820_count ≡ 0 → region_at (query_fallback mem) e820_buf ≡ assumed
unfolding query_fallback put_le get_le region_at
fallback_region mem e = rw e refl

fallback_count : (mem : ℕ → ℕ) → mem e820_count ≡ 0 → query_fallback mem e820_count ≡ 1
unfolding query_fallback put_le
fallback_count mem e = rw e refl

fallback_rest : (mem : ℕ → ℕ) (a : ℕ) → may_write 0 a ≡ false → query_fallback mem a ≡ mem a
unfolding query_fallback
fallback_rest mem a off = elim (Bool-cases (mem e820_count == 0)) [
  | inr some' ↦ rw some' refl
  | inl none' ↦
      let m1 = put_le 4 e820_buf 0x0010_0000 mem in
      let m2 = put_le 4 (e820_buf + 4) 0 m1 in
      let m3 = put_le 4 (e820_buf + 8) 0x07f0_0000 m2 in
      let m4 = put_le 4 (e820_buf + 12) 0 m3 in
      let elsewhere : (e820_count == a) ≡ false = ground (arith, off) in
      rw (none', elsewhere)
        (put_le_off 4 (e820_buf + 16) 1 a m4 (ground (arith, off))
          ∙ put_le_off 4 (e820_buf + 12) 0 a m3 (ground (arith, off))
          ∙ put_le_off 4 (e820_buf + 8) 0x07f0_0000 a m2 (ground (arith, off))
          ∙ put_le_off 4 (e820_buf + 4) 0 a m1 (ground (arith, off))
          ∙ put_le_off 4 e820_buf 0x0010_0000 a mem (ground (arith, off)))
]

fallback_none : (mem : ℕ → ℕ) → (mem e820_count == 0) ≡ false → query_fallback mem ≡ mem
unfolding query_fallback
fallback_none mem e = rw e refl

-- From the loop to the result, by the list of its answers.
finish :
    (bios : Bios) (rs : List Region) (mem : ℕ → ℕ) (r : Option (ℕ → ℕ))
    → memory_map bios ≡ or_assumed rs
    → length rs ≤ 64
    → Looped 0 rs (update mem e820_count 0) r
    → Queried bios mem (Option.map query_fallback r)
finish bios [] mem r map few l = record {
  after = query_fallback l.after;
  result = rw l.result refl;
  count = fallback_count l.after l.count ∙ sym (ap length map);
  least = rw map (omega arith);
  most = rw map (omega arith);
  holds = rw map (fallback_region l.after l.count, tt);
  rest = λ a spare off. fallback_rest l.after a off ∙ l.rest a off ∙ ground (arith, off);
}
finish bios (x ∷ rs) mem r map few l =
    let same = fallback_none l.after (ground (arith, l.count)) in
    record {
      after = l.after;
      result = rw (l.result, same) refl;
      count = l.count ∙ omega arith ∙ sym (ap length map);
      least = rw map (omega arith);
      most = rw map few;
      holds = rw map l.holds;
      rest = λ a spare off. l.rest a off ∙ ground (arith, off);
    }

-- Whatever a BIOS answers that writes at most the 24 bytes offered, and a whole region where it succeeds,
-- `query_e820` ends after at most 65 calls, and stages the memory map: the regions of the replies up to
-- the first call that fails or the end of the list, 64 at most, or 127 MB from 1 MB on if there are none.
-- The count byte says how many. Besides it, and apart from the BIOS's own data, the stack and the sector's
-- variables, only the buffer and the 24 bytes behind it may change, into which a reply to the 65th call goes.
pub query_e820-Queried :
    (bios : Bios) (mem : ℕ → ℕ) → IsBios bios → Queried bios mem (query_e820 bios mem)
unfolding query_e820
query_e820-Queried bios mem ok =
    finish bios (answers 64 bios 0 0) mem _ (unfold memory_map in refl) (length-answers 64 bios 0 0)
      (query_loop-Looped 64 0 bios 0 0 (update mem e820_count 0) ok (omega arith) refl)
