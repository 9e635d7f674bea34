-- ===== src/Sector/Staging.antt =====
-- The way of the memory map from the BIOS to `pmm_init`.
use mathlib.Core.List.{map}
use mathlib.Core.Option.{some-injective}
use mathlib.Core.Path.{subst}
use nadir_kernel.Base.{
  ℕ, zero, suc, ◌+◌, ◌*◌, ◌%◌, ◌≤◌, ◌<◌, ◌≡◌, refl, ap, ◌∙◌, sym, List, [], ◌∷◌, some, arith,
  length,
}
use nadir_kernel.Base.Ram.{get_le}
use nadir_kernel.Pmm.{E820Entry, entries_from, visited}
use nadir_kernel.Pmm.Release.{IsEntry, AllEntries}
use nadir_kernel.Entry.MemoryMap.{
  Layout, IsLinked, clamp, entry_at, long_entry, long_entry-HandedOver, entry_at-IsEntry,
}
use nadir_kernel.Sector.{Bios, e820_count, e820_buf, query_e820}
use nadir_kernel.Sector.Regions.{Region, region_at, memory_map, IsBios, Holds, region_at-eq}
use nadir_kernel.Sector.Query.{query_e820-Queried}

-- What `pmm_init` reads of an entry.
unfoldable pub region_of : E820Entry → Region
region_of e = record { base = e.base; length = e.length; type = e.type }

region_of-entry_at : (mem : ℕ → ℕ) (p : ℕ) → region_of (entry_at mem p) ≡ region_at mem p
unfolding region_of entry_at region_at
region_of-entry_at mem p = refl

regions-entries_from :
    (rs : List Region) (f : ℕ → E820Entry) (k p : ℕ) (m : ℕ → ℕ)
    → Holds m p rs
    → ((i : ℕ) → i < length rs → region_of (f (k + i)) ≡ region_at m (p + 24 * i))
    → map region_of (entries_from f k (length rs)) ≡ rs
unfolding entries_from
regions-entries_from [] f k p m h same = refl
regions-entries_from (r ∷ rs) f k p m h same =
    let first : region_of (f k) ≡ r =
      ap (λ (n : ℕ). region_of (f n)) (omega arith)
      ∙ same 0 (omega arith)
      ∙ ap (region_at m) (let e : p + 24 * 0 ≡ p = omega arith in e)
      ∙ h.0 in
    let rest = regions-entries_from rs f (k + 1) (p + 24) m h.1 (λ i lt.
      ap (λ (n : ℕ). region_of (f n)) (let e : k + 1 + i ≡ k + (i + 1) = omega arith in e)
      ∙ same (i + 1) (omega arith)
      ∙ ap (region_at m) (let e : p + 24 * (i + 1) ≡ p + 24 + 24 * i = omega arith in e)) in
    λ i. first i ∷ rest i

AllEntries-entries_from :
    (n k : ℕ) (f : ℕ → E820Entry) → ((i : ℕ) → IsEntry (f i)) → AllEntries (entries_from f k n)
unfolding entries_from
AllEntries-entries_from zero k f h = tt
AllEntries-entries_from (suc n) k f h = (h k, AllEntries-entries_from n (k + 1) f h)

-- The variables `memmap_count` and `memmap_entries` in memory.
abbrev pub count_in : Layout → (ℕ → ℕ) → ℕ
count_in l mem = get_le 4 l.memmap_count mem

abbrev pub entries_in : Layout → (ℕ → ℕ) → ℕ → E820Entry
entries_in l mem i = entry_at mem (l.memmap_entries + 24 * i)

-- Memory at the entry to `kmain` has the memory map where `pmm_init` reads it.
pub record Told (l : Layout) (bios : Bios) (mem : ℕ → ℕ) : Type 0 where
  pub regions : map region_of (visited (count_in l mem) (some (entries_in l mem))) ≡ memory_map bios
  pub entries : AllEntries (visited (count_in l mem) (some (entries_in l mem)))

clamp-small : (n : ℕ) → n ≤ 64 → clamp (n % 256) ≡ n
unfolding clamp
clamp-small n h = ground arith

visited-entries_from :
    (n : ℕ) (f : ℕ → E820Entry) → n ≤ 64 → visited n (some f) ≡ entries_from f 0 n
unfolding visited
visited-entries_from n f h = ap (entries_from f 0) (ground arith)

-- Where the staging area still holds the map.
told :
    (l : Layout) (bios : Bios) (later : ℕ → ℕ)
    → IsLinked l
    → later e820_count ≡ length (memory_map bios)
    → length (memory_map bios) ≤ 64
    → Holds later e820_buf (memory_map bios)
    → Told l bios (long_entry l later)
told l bios later k count few holds =
    let n = length (memory_map bios) in
    let h = long_entry-HandedOver l later k in
    let f = entries_in l (long_entry l later) in
    let clamped : clamp (later e820_count % 256) ≡ n =
      ap (λ (b : ℕ). clamp (b % 256)) count ∙ clamp-small n few in
    let list : visited (count_in l (long_entry l later)) (some f) ≡ entries_from f 0 n =
      ap (λ (c : ℕ). visited c (some f)) (h.count ∙ clamped) ∙ visited-entries_from n f few in
    record {
      regions =
          ap (map region_of) list
          ∙ regions-entries_from (memory_map bios) f 0 e820_buf later holds (λ i lt.
            ap (λ (j : ℕ). region_of (f j)) (let e : 0 + i ≡ i = omega arith in e)
            ∙ ap region_of (h.entries i (omega (arith, clamped)))
            ∙ region_of-entry_at later (e820_buf + 24 * i));
      entries = subst AllEntries (sym list) (
          AllEntries-entries_from n 0 f
            (λ i. entry_at-IsEntry (long_entry l later) (l.memmap_entries + 24 * i)));
    }

Holds-agree :
    (m m' : ℕ → ℕ) (p : ℕ) (rs : List Region)
    → ((a : ℕ) → p ≤ a → a < p + 24 * length rs → m' a ≡ m a)
    → Holds m p rs
    → Holds m' p rs
Holds-agree m m' p [] same h = tt
Holds-agree m m' p (r ∷ rs) same h = (
  region_at-eq m' m p p (λ j lt. same (p + j) (omega arith) (omega arith)) ∙ h.0,
  Holds-agree m m' (p + 24) rs (λ a lo hi. same a (omega arith) (omega arith)) h.1,
)

-- The memory map that the boot sector asks for comes through to `pmm_init`, in order and whole, if nothing
-- writes to the staging area between the query and the stage-2 copy: the entries that it visits are the
-- regions that the BIOS tells, or 127 MB from 1 MB on if it tells none, with 64-bit addresses.
pub long_entry-query_e820 :
    (l : Layout) (bios : Bios) (mem after later : ℕ → ℕ)
    → IsLinked l
    → IsBios bios
    → query_e820 bios mem ≡ some after
    → ((a : ℕ) → 0x5000 ≤ a → a < 0x5620 → later a ≡ after a)
    → Told l bios (long_entry l later)
long_entry-query_e820 l bios mem after later k ok e kept =
    let q = query_e820-Queried bios mem ok in
    let same : q.after ≡ after = some-injective _ _ (sym q.result ∙ e) in
    told l bios later k
      (kept e820_count (omega arith) (omega arith)
        ∙ ap (λ (m : ℕ → ℕ). m e820_count) (sym same)
        ∙ q.count)
      q.most
      (Holds-agree after later e820_buf (memory_map bios)
        (λ a lo hi. kept a (omega arith) (omega (arith, q.most)))
        (subst (λ (m : ℕ → ℕ). Holds m e820_buf (memory_map bios)) same q.holds))
