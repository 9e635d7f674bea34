-- ===== src/Sector/Loop.antt =====
-- The loop of `query_e820` against the answers of the BIOS.
use mathlib.Core.Path.{subst}
use nadir_kernel.Base.{
  ℕ, zero, suc, ◌+◌, ◌-◌, ◌*◌, ◌%◌, ◌≤◌, ◌<◌, ◌≡◌, refl, ap, ◌∙◌, Bool, true, false, ◌||◌, List, [],
  ◌∷◌, Option, some, arith, length, leb, ◌==◌, if◌then◌else◌, update, Bool-cases, inl, inr,
}
use nadir_kernel.Base.Ram.{store_bytes, within, store_bytes_lem}
use nadir_kernel.Sector.{Bios, smap, e820_max, e820_count, e820_buf, query_loop}
use nadir_kernel.Sector.Regions.{Region, region_at, answers, IsBios, Holds, region_at-eq}

-- The bytes that the loop may write from an entry on: the count, and the buffer with one entry behind it.
abbrev pub may_write : ℕ → ℕ → Bool
may_write c a = a == e820_count || within (e820_buf + 24 * c) (24 * (65 - c)) a

pub record Looped (c : ℕ) (rs : List Region) (mem : ℕ → ℕ) (r : Option (ℕ → ℕ)) : Type 0 where
  pub after : ℕ → ℕ
  pub result : r ≡ some after
  pub count : after e820_count ≡ c + length rs
  pub holds : Holds after (e820_buf + 24 * c) rs
  pub rest : (a : ℕ) → may_write c a ≡ false → after a ≡ mem a

-- A call that does not count.
Looped-stop :
    (c : ℕ) (bytes : ℕ → ℕ) (size : ℕ) (mem : ℕ → ℕ)
    → c ≤ 64
    → size ≤ 24
    → mem e820_count ≡ c
    → Looped c [] mem (some (store_bytes size bytes (e820_buf + mem e820_count % 256 * 24) mem))
Looped-stop c bytes size mem le small e =
    let place : e820_buf + mem e820_count % 256 * 24 ≡ e820_buf + 24 * c = omega (arith, e) in
    rw place (record {
      after = store_bytes size bytes (e820_buf + 24 * c) mem;
      result = refl;
      count = store_bytes_lem size (e820_buf + 24 * c) e820_count bytes mem ∙ ground (arith, e);
      holds = tt;
      rest = λ a off. store_bytes_lem size (e820_buf + 24 * c) a bytes mem ∙ ground (arith, off);
    })

-- A call that counts, with what the loop does after it.
Looped-cons :
    (c : ℕ) (bytes : ℕ → ℕ) (size : ℕ) (mem : ℕ → ℕ) (rs : List Region) (r : Option (ℕ → ℕ))
    → c < 64
    → 20 ≤ size
    → size ≤ 24
    → mem e820_count ≡ c
    → (let stored = store_bytes size bytes (e820_buf + mem e820_count % 256 * 24) mem in
        Looped (c + 1) rs (update stored e820_count ((stored e820_count + 1) % 256)) r)
    → Looped c (region_at bytes 0 ∷ rs) mem r
Looped-cons c bytes size mem rs r few least most e d =
    let place : e820_buf + mem e820_count % 256 * 24 ≡ e820_buf + 24 * c = omega (arith, e) in
    let stored = store_bytes size bytes (e820_buf + mem e820_count % 256 * 24) mem in
    let stored_at : (a : ℕ)
        → stored a
          ≡ (if within (e820_buf + 24 * c) size a then bytes (a - (e820_buf + 24 * c)) else mem a) =
      λ a.
        ap (λ (p : ℕ). store_bytes size bytes p mem a) place
        ∙ store_bytes_lem size (e820_buf + 24 * c) a bytes mem in
    record {
      after = d.after;
      result = d.result;
      count = omega (arith, d.count);
      holds = (
        region_at-eq d.after bytes (e820_buf + 24 * c) 0 (λ j lt.
            let p = e820_buf + 24 * c + j in
            let inside : within (e820_buf + 24 * c) size p ≡ true = ground arith in
            let elsewhere : (e820_count == p) ≡ false = ground arith in
            let kept : d.after p ≡ stored p = d.rest p (ground arith) ∙ rw elsewhere refl in
            let byte : p - (e820_buf + 24 * c) ≡ 0 + j = omega arith in
            kept ∙ stored_at p ∙ rw inside (ap bytes byte)),
        subst (λ (p : ℕ). Holds d.after p rs)
            (let up : e820_buf + 24 * (c + 1) ≡ e820_buf + 24 * c + 24 = omega arith in up) d.holds,
      );
      rest = λ a off.
          let outside : within (e820_buf + 24 * c) size a ≡ false = ground (arith, off) in
          let elsewhere : (e820_count == a) ≡ false = ground (arith, off) in
          d.rest a (ground (arith, off)) ∙ rw elsewhere (stored_at a ∙ rw outside refl);
    }

-- The count is untouched when a reply is stored.
stored_count :
    (bytes : ℕ → ℕ) (size c : ℕ) (mem : ℕ → ℕ)
    → mem e820_count ≡ c
    → store_bytes size bytes (e820_buf + mem e820_count % 256 * 24) mem e820_count ≡ c
stored_count bytes size c mem e =
    store_bytes_lem size (e820_buf + mem e820_count % 256 * 24) e820_count bytes mem
    ∙ ground (arith, e)

pub query_loop-Looped :
    (n c : ℕ) (bios : Bios) (calls next : ℕ) (mem : ℕ → ℕ)
    → IsBios bios
    → c + n ≡ 64
    → mem e820_count ≡ c
    → Looped c (answers n bios calls next) mem (query_loop (suc n) bios calls next mem)
unfolding query_loop answers
query_loop-Looped zero c bios calls next mem ok room e =
    let r = bios calls next in
    let full = stored_count r.bytes r.size c mem e in
    let stop = Looped-stop c r.bytes r.size mem (omega arith) (ok.most calls next) e in
    elim (Bool-cases r.carry) [
      | inl failed ↦ rw failed stop
      | inr fine ↦ elim (Bool-cases (r.eax == smap)) [
        | inr other ↦ rw (fine, other) stop
        | inl echoed ↦
            let at_end : leb e820_max c ≡ true = ground arith in
            rw (fine, echoed, full, at_end) stop
      ]
    ]
query_loop-Looped (suc n) c bios calls next mem ok room e =
    let r = bios calls next in
    let count = stored_count r.bytes r.size c mem e in
    let stop = Looped-stop c r.bytes r.size mem (omega arith) (ok.most calls next) e in
    let stored = store_bytes r.size r.bytes (e820_buf + mem e820_count % 256 * 24) mem in
    let counted = update stored e820_count ((stored e820_count + 1) % 256) in
    let one_more : counted e820_count ≡ c + 1 = omega (arith, count) in
    elim (Bool-cases r.carry) [
      | inl failed ↦ rw failed stop
      | inr fine ↦ elim (Bool-cases (r.eax == smap)) [
        | inr other ↦ rw (fine, other) stop
        | inl echoed ↦
            let least = ok.least calls next fine echoed in
            let below : leb e820_max (stored e820_count) ≡ false = ground (arith, count) in
            elim (Bool-cases (r.ebx == 0)) [
              | inl last ↦
                  rw (fine, echoed, below, last)
                    (Looped-cons c r.bytes r.size mem [] (some counted) (omega arith) least
                      (ok.most calls next) e
                      (record {
                        after = counted;
                        result = refl;
                        count = omega (arith, one_more);
                        holds = tt;
                        rest = λ a off. refl;
                      }))
              | inr more ↦
                  rw (fine, echoed, below, more)
                    (Looped-cons c r.bytes r.size mem (answers n bios (calls + 1) r.ebx) _
                      (omega arith) least (ok.most calls next) e
                      (query_loop-Looped n (c + 1) bios (calls + 1) r.ebx counted ok (omega arith)
                        one_more))
            ]
      ]
    ]
