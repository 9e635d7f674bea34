-- ===== src/Kmalloc/Chain.antt =====
-- How the runs lie in memory: the free list as a chain of words, and the headers.
use nadir_kernel.Base.{ℕ, ◌+◌, ◌<◌, ◌≡◌, ◌∙◌, List, [], ◌∷◌, arith}
use nadir_kernel.Kmalloc.{Memory, kmalloc_magic, frames_at}
use nadir_kernel.Kmalloc.Runs.{Run, IsRun, AllRuns, held, hits_start, hits_frames}

-- From address `p` the words `next` lead through the runs to NULL.
abbrev pub Chain : Memory → ℕ → List Run → Type 0
Chain mem p [] = p ≡ 0
Chain mem p (r ∷ rs) = (p ≡ r.start) × (mem (frames_at p) ≡ r.frames) × Chain mem (mem p) rs

-- Every run starts with a header that names its length.
abbrev pub Headers : Memory → List Run → Type 0
Headers mem [] = Unit
Headers mem (r ∷ rs) =
    (mem r.start ≡ kmalloc_magic) × (mem (frames_at r.start) ≡ r.frames) × Headers mem rs

-- `mem'` and `mem` agree on the bytes of the runs.
abbrev pub Agree : List Run → Memory → Memory → Type 0
Agree rs mem mem' = (x : ℕ) → 0 < held x rs → mem' x ≡ mem x

pub frames_at_lem : (r : Run) → IsRun r → frames_at r.start ≡ r.start + 8
frames_at_lem r v = omega arith

module _ (r : Run) (rs : List Run) (v : IsRun r) {mem mem' : Memory}
    (same : Agree (r ∷ rs) mem mem') where
  same_start : mem' r.start ≡ mem r.start
  same_start = same r.start (unfold held in omega (arith, hits_start r v))

  same_frames : mem' (frames_at r.start) ≡ mem (frames_at r.start)
  same_frames =
      rw (frames_at_lem r v) (same (r.start + 8) (unfold held in omega (arith, hits_frames r v)))

  same_tail : Agree rs mem mem'
  same_tail x h = same x (unfold held in omega arith)

pub Chain-Agree :
    (rs : List Run) (p : ℕ) {mem mem' : Memory}
    → AllRuns rs
    → Agree rs mem mem'
    → Chain mem p rs
    → Chain mem' p rs
Chain-Agree [] p v same c = c
Chain-Agree (r ∷ rs) p {mem} {mem'} v same c =
    let start : mem' p ≡ mem p = rw c.0 (same_start r rs v.0 same) in
    let frames : mem' (frames_at p) ≡ mem (frames_at p) = rw c.0 (same_frames r rs v.0 same) in
    (c.0, frames ∙ c.1, rw start (Chain-Agree rs (mem p) v.1 (same_tail r rs v.0 same) c.2))

pub Headers-Agree :
    (rs : List Run) {mem mem' : Memory}
    → AllRuns rs
    → Agree rs mem mem'
    → Headers mem rs
    → Headers mem' rs
Headers-Agree [] v same c = tt
Headers-Agree (r ∷ rs) v same c = (
  same_start r rs v.0 same ∙ c.0,
  same_frames r rs v.0 same ∙ c.1,
  Headers-Agree rs v.1 (same_tail r rs v.0 same) c.2,
)
