-- ===== src/Sector/Frames.antt =====
-- From the BIOS to the frame allocator: what a frame's bit says of the memory map.
use mathlib.Core.List.{map}
use nadir_kernel.Base.{ℕ, ◌^◌, ◌≤◌, ◌<◌, ◌≡◌, refl, ap, ◌∙◌, Bool, not, ◌||◌, List, [], ◌∷◌, some}
use nadir_kernel.Pmm.{Pmm, E820Entry, visited, test_bit, pmm_init, pmm_max_frames}
use nadir_kernel.Pmm.Release.{covers, any}
use nadir_kernel.Pmm.Init.{carves, fixed, pmm_init_lem}
use nadir_kernel.Entry.MemoryMap.{Layout, IsLinked, long_entry}
use nadir_kernel.Sector.{Bios, query_e820}
use nadir_kernel.Sector.Regions.{Region, memory_map, IsBios}
use nadir_kernel.Sector.Staging.{region_of, count_in, entries_in, long_entry-query_e820}

-- A region as an entry.
abbrev entry_of : Region → E820Entry
entry_of r = record { base = r.base; length = r.length; type = r.type; acpi_attr = 0 }

-- The frame is usable and whole in the region.
unfoldable pub provides : ℕ → Region → Bool
provides f r = covers (entry_of r) f

-- The region is of another type, and `reserve_range` takes the frame for it.
unfoldable pub takes : ℕ → Region → Bool
takes f r = carves (entry_of r) f

any-map :
    {A B : Type 0} (g : A → B) (p : B → Bool) (q : A → Bool) (xs : List A)
    → ((x : A) → q x ≡ p (g x))
    → any q xs ≡ any p (map g xs)
unfolding any
any-map g p q [] h = refl
any-map g p q (x ∷ xs) h = λ i. h x i || any-map g p q xs h i

provides-region_of : (f : ℕ) (e : E820Entry) → covers e f ≡ provides f (region_of e)
unfolding provides region_of covers
provides-region_of f e = refl

takes-region_of : (f : ℕ) (e : E820Entry) → carves e f ≡ takes f (region_of e)
unfolding takes region_of carves
takes-region_of f e = refl

-- A frame in terms of the regions.
unfoldable pub is_taken : ℕ → ℕ → List Region → ℕ → Bool
is_taken s t rs f = fixed s t f || (any (takes f) rs || not (any (provides f) rs))

-- The frame allocator starts from the memory map that the BIOS tells the boot sector, if the BIOS writes at
-- most the 24 bytes offered and a whole region where it succeeds, nothing writes to the staging area
-- between the query and the stage-2 copy, and the linker has placed .bss behind that area with the two
-- variables apart in it: after `pmm_init` with 64-bit bounds of the kernel a frame of the window is free
-- exactly when some usable region of the map covers it whole, no region of another type takes it, and it
-- lies neither in the low megabyte nor in the kernel image. If the BIOS tells no map, the only region is
-- 127 MB from 1 MB on.
pub pmm_init-query_e820 :
    (l : Layout) (bios : Bios) (mem after later : ℕ → ℕ) (s t : ℕ) (p : Pmm) (f : ℕ)
    → IsLinked l
    → IsBios bios
    → query_e820 bios mem ≡ some after
    → ((a : ℕ) → 0x5000 ≤ a → a < 0x5620 → later a ≡ after a)
    → s ≤ t
    → t < 2 ^ 64
    → ((i : ℕ) → p.bitmap i < 256)
    → f < pmm_max_frames
    → let ready = long_entry l later in
      test_bit (pmm_init s t (count_in l ready) (some (entries_in l ready)) p).bitmap f
      ≡ is_taken s t (memory_map bios) f
unfolding is_taken
pmm_init-query_e820 l bios mem after later s t p f k ok e kept order small bytes h =
    let ready = long_entry l later in
    let told = long_entry-query_e820 l bios mem after later k ok e kept in
    let es = visited (count_in l ready) (some (entries_in l ready)) in
    let (_, _, bits) =
      pmm_init_lem s t (count_in l ready) (some (entries_in l ready)) p f order small bytes
        told.entries h in
    let taken : any (λ e. carves e f) es ≡ any (takes f) (memory_map bios) =
      any-map region_of (takes f) (λ e. carves e f) es (takes-region_of f)
      ∙ ap (any (takes f)) told.regions in
    let provided : any (λ e. covers e f) es ≡ any (provides f) (memory_map bios) =
      any-map region_of (provides f) (λ e. covers e f) es (provides-region_of f)
      ∙ ap (any (provides f)) told.regions in
    bits ∙ (λ i. fixed s t f || (taken i || not (provided i)))
