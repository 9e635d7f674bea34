-- ===== src/Entry/Paging.antt =====
-- The page tables map the first gigabyte to itself, and nothing else.
use nadir_kernel.Base.{
  ℕ, zero, suc, ◌+◌, ◌*◌, ◌/◌, ◌%◌, ◌^◌, ◌<◌, ◌≡◌, refl, ap, ◌∙◌, sym, none, some, arith, ltb, ◌==◌,
  if◌then◌else◌, update, lt→ltb, le→ltb, Bool-cases, inl, inr,
}
use nadir_kernel.Entry.{
  pml4, pdpt, pd, clear_words, fill_pd, page_tables, table_entry, walk_pd, walk_pdpt, page_walk,
}

clear_words-below : (n edi a : ℕ) (mem : ℕ → ℕ) → a < edi → clear_words n edi mem a ≡ mem a
unfolding clear_words
clear_words-below zero edi a mem h = refl
clear_words-below (suc n) edi a mem h =
    clear_words-below n (edi + 4) a (update mem edi 0) (omega arith) ∙ ground arith

clear_words-inside : (n edi k : ℕ) (mem : ℕ → ℕ) → k < n → clear_words n edi mem (edi + 4 * k) ≡ 0
unfolding clear_words
clear_words-inside zero edi k mem h = absurd (omega arith)
clear_words-inside (suc n) edi zero mem h =
    ap (clear_words n (edi + 4) (update mem edi 0)) (let e : edi + 4 * 0 ≡ edi = omega arith in e)
    ∙ clear_words-below n (edi + 4) edi (update mem edi 0) (omega arith)
    ∙ ground arith
clear_words-inside (suc n) edi (suc k) mem h =
    ap (clear_words n (edi + 4) (update mem edi 0))
      (let e : edi + 4 * suc k ≡ edi + 4 + 4 * k = omega arith in e)
    ∙ clear_words-inside n (edi + 4) k (update mem edi 0) (omega arith)

fill_pd-below : (n edi eax a : ℕ) (mem : ℕ → ℕ) → a < edi → fill_pd n edi eax mem a ≡ mem a
unfolding fill_pd
fill_pd-below zero edi eax a mem h = refl
fill_pd-below (suc n) edi eax a mem h =
    fill_pd-below n (edi + 8) ((eax + 0x200000) % 2 ^ 32) a (update mem edi eax) (omega arith)
    ∙ ground arith

-- An entry gets its address, as long as that fits 32 bits; the upper halves stay as they are.
fill_pd-inside :
    (n edi eax i : ℕ) (mem : ℕ → ℕ)
    → i < n
    → eax + 0x200000 * n < 2 ^ 32
    → (fill_pd n edi eax mem (edi + 8 * i) ≡ eax + 0x200000 * i)
      × (fill_pd n edi eax mem (edi + 8 * i + 4) ≡ mem (edi + 8 * i + 4))
unfolding fill_pd
fill_pd-inside zero edi eax i mem h fits = absurd (omega arith)
fill_pd-inside (suc n) edi eax zero mem h fits =
    let low : edi + 8 * 0 ≡ edi = omega arith in
    let next = (eax + 0x200000) % 2 ^ 32 in
    let rest = fill_pd n (edi + 8) next (update mem edi eax) in
    (
      ap rest low
          ∙ fill_pd-below n (edi + 8) next edi (update mem edi eax) (omega arith)
          ∙ ground arith,
      fill_pd-below n (edi + 8) next (edi + 8 * 0 + 4) (update mem edi eax) (omega arith)
          ∙ ground arith,
    )
fill_pd-inside (suc n) edi eax (suc i) mem h fits =
    let up : edi + 8 * suc i ≡ edi + 8 + 8 * i = omega arith in
    let next = (eax + 0x200000) % 2 ^ 32 in
    let rest = fill_pd n (edi + 8) next (update mem edi eax) in
    let (a, b) =
      fill_pd-inside n (edi + 8) next i (update mem edi eax) (omega arith) (omega arith) in
    (
      ap rest up ∙ a ∙ omega arith,
      ap (λ (x : ℕ). rest (x + 4)) up
          ∙ b
          ∙ ap (λ (x : ℕ). update mem edi eax (x + 4)) (sym up)
          ∙ ground arith,
    )

-- The tables before the last loop.
module _ (mem : ℕ → ℕ) where
  cleared_tables : (k : ℕ) → k < 0x1000 → clear_words 0x1000 pml4 mem (pml4 + 4 * k) ≡ 0
  cleared_tables k h = clear_words-inside 0x1000 pml4 k mem h

  low_tables :
      (j : ℕ)
      → j < 0x800
      → page_tables mem (pml4 + 4 * j)
        ≡ (if j == 0 then 0x71003 else if j == 0x400 then 0x72003 else 0)
  unfolding page_tables
  low_tables j h =
      let m1 = clear_words 0x1000 pml4 mem in
      let m3 = update (update m1 pml4 0x71003) pdpt 0x72003 in
      fill_pd-below 512 pd 0x83 (pml4 + 4 * j) m3 (omega arith)
      ∙ ground (arith, cleared_tables j (omega arith))

  pml4_entry :
      (i : ℕ) → i < 512 → table_entry (page_tables mem) pml4 i ≡ (if i == 0 then 0x71003 else 0)
  unfolding table_entry
  pml4_entry i h =
      let lo =
        ap (page_tables mem) (let e : pml4 + 8 * i ≡ pml4 + 4 * (2 * i) = omega arith in e)
        ∙ low_tables (2 * i) (omega arith) in
      let hi =
        ap (page_tables mem) (let e : pml4 + 8 * i + 4 ≡ pml4 + 4 * (2 * i + 1) = omega arith in e)
        ∙ low_tables (2 * i + 1) (omega arith) in
      rw (lo, hi) (ground arith)

  pdpt_entry :
      (i : ℕ) → i < 512 → table_entry (page_tables mem) pdpt i ≡ (if i == 0 then 0x72003 else 0)
  unfolding table_entry
  pdpt_entry i h =
      let lo =
        ap (page_tables mem) (let e : pdpt + 8 * i ≡ pml4 + 4 * (0x400 + 2 * i) = omega arith in e)
        ∙ low_tables (0x400 + 2 * i) (omega arith) in
      let hi =
        ap (page_tables mem)
          (let e : pdpt + 8 * i + 4 ≡ pml4 + 4 * (0x400 + 2 * i + 1) = omega arith in e)
        ∙ low_tables (0x400 + 2 * i + 1) (omega arith) in
      rw (lo, hi) (ground arith)

  pd_entry : (i : ℕ) → i < 512 → table_entry (page_tables mem) pd i ≡ 0x83 + 0x200000 * i
  unfolding table_entry page_tables
  pd_entry i h =
      let m1 = clear_words 0x1000 pml4 mem in
      let m3 = update (update m1 pml4 0x71003) pdpt 0x72003 in
      let (lo, hi) = fill_pd-inside 512 pd 0x83 i m3 h (omega arith) in
      let zero' : m3 (pd + 8 * i + 4) ≡ 0 =
        ap m3 (let e : pd + 8 * i + 4 ≡ pml4 + 4 * (0x800 + 2 * i + 1) = omega arith in e)
        ∙ ground (arith, cleared_tables (0x800 + 2 * i + 1) (omega arith)) in
      omega (arith, lo, hi, zero')

  walk_pd-low : (v : ℕ) → v < 2 ^ 30 → walk_pd (page_tables mem) pd v ≡ some v
  unfolding walk_pd
  walk_pd-low v h =
      let e = 0x83 + 0x200000 * (v / 2 ^ 21 % 512) in
      let here : e % 2 ≡ 1 = omega arith in
      let page : e / 128 % 2 ≡ 1 = omega arith in
      let whole : e % 2 ^ 52 / 2 ^ 21 * 2 ^ 21 + v % 2 ^ 21 ≡ v = omega arith in
      rw (pd_entry (v / 2 ^ 21 % 512) (omega arith), here, page, whole) refl

  walk_pdpt-low :
      (v : ℕ)
      → v < 2 ^ 39
      → walk_pdpt (page_tables mem) pdpt v ≡ (if ltb v (2 ^ 30) then some v else none)
  unfolding walk_pdpt
  walk_pdpt-low v h =
      rw (pdpt_entry (v / 2 ^ 30 % 512) (omega arith)) (elim (Bool-cases (v / 2 ^ 30 % 512 == 0)) [
        | inl first ↦
            let low : v < 2 ^ 30 = ground (arith, first) in
            rw (first, lt→ltb v (2 ^ 30) low) (walk_pd-low v low)
        | inr later ↦ rw (later, le→ltb v (2 ^ 30) (ground (arith, later))) refl
      ])

  -- On the tables that the stage-2 entry builds, whatever memory held before, the processor translates
  -- every address of the first gigabyte to itself, and faults on any other of the lower half.
  pub page_walk-page_tables :
      (v : ℕ)
      → v < 2 ^ 47
      → page_walk (page_tables mem) pml4 v ≡ (if ltb v (2 ^ 30) then some v else none)
  unfolding page_walk
  page_walk-page_tables v h =
      rw (pml4_entry (v / 2 ^ 39 % 512) (omega arith)) (elim (Bool-cases (v / 2 ^ 39 % 512 == 0)) [
        | inl first ↦ rw first (walk_pdpt-low v (ground (arith, first)))
        | inr later ↦ rw (later, le→ltb v (2 ^ 30) (ground (arith, later))) refl
      ])
