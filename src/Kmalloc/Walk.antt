-- ===== src/Kmalloc/Walk.antt =====
-- The loop of `kmalloc` is first fit on the runs of the free list.
use nadir_kernel.Base.{
  ℕ, zero, suc, ◌+◌, ◌≤◌, ◌<◌, ◌≡◌, refl, ◌∙◌, true, false, Option, none, some, List, [], ◌∷◌,
  arith, leb, ◌==◌, length, Bool-cases, inl, inr, beq_of_ne, beq_of_eq, eq_of_beq, ap,
}
use mathlib.Core.Option
use nadir_kernel.Kmalloc.{Heap, frames_at, Link, root, next_of, read_link, carve, walk}
use nadir_kernel.Kmalloc.Runs.{Run, IsRun, AllRuns, hits, held, hits_start, hits_frames, first_fit}
use nadir_kernel.Kmalloc.Chain.{Chain, frames_at_lem}
use nadir_kernel.Kmalloc.Carve.{at_link, KeepsList, Carved, carve_ptr}
use nadir_kernel.Kmalloc.Place.{carve_here}

-- What the loop returns, given the outcome of first fit.
abbrev pub Walked : Link → ℕ → List Run → Heap → Option (ℕ × Heap) → Option (ℕ × List Run) → Type 0
Walked link need rs h result none = result ≡ some (0, h)
Walked link need rs h result (some (a, rs')) =
    (h' : Heap) × (result ≡ some (a + 16, h')) × Carved link need rs a rs' h h'

keeps_list : (link : Link) (h h' : Heap) → h'.g_free_list ≡ h.g_free_list → KeepsList link h h'
keeps_list root h h' e = tt
keeps_list (next_of q) h h' e = e

not_start : (r : Run) (x : ℕ) → IsRun r → hits x r ≡ 0 → (r.start == x) ≡ false
not_start r x v miss =
    beq_of_ne r.start x (λ e. absurd (omega (arith, miss, ap (λ y. hits y r) e, hits_start r v)))

module _ {need : ℕ} {r : Run} {rs : List Run} {h h' : Heap} {a : ℕ} {rs' : List Run} (v : IsRun r)
    (apart : (x : ℕ) → held x (r ∷ rs) ≤ 1) (w : Carved (next_of r.start) need rs a rs' h h') where
  -- The word that led to the run is as it was.
  kept_link :
      (link : Link)
      → ((x : ℕ) → at_link link x ≡ true → held x (r ∷ rs) ≡ 0)
      → read_link link h' ≡ read_link link h
  unfolding read_link at_link held
  kept_link root out = w.list
  kept_link (next_of q) out =
      let none' = out q (beq_of_eq q q refl) in
      w.other q (omega (arith, none')) (not_start r q v (omega (arith, none')))

  kept_frames : h'.memory (frames_at r.start) ≡ h.memory (frames_at r.start)
  unfolding held at_link
  kept_frames = rw (frames_at_lem r v) (
      w.other (r.start + 8) (omega (arith, apart (r.start + 8), hits_frames r v))
        (beq_of_ne r.start (r.start + 8) (omega arith)))

-- A run that is too small stays in front of what the rest of the loop leaves.
small_first :
    (link : Link) (need : ℕ) (r : Run) (rs : List Run) (h : Heap) (result : Option (ℕ × Heap))
    (o : Option (ℕ × List Run))
    → IsRun r
    → ((x : ℕ) → held x (r ∷ rs) ≤ 1)
    → ((x : ℕ) → at_link link x ≡ true → held x (r ∷ rs) ≡ 0)
    → read_link link h ≡ r.start
    → h.memory (frames_at r.start) ≡ r.frames
    → Walked (next_of r.start) need rs h result o
    → Walked link need (r ∷ rs) h result (Option.map (λ (a, rs'). (a, r ∷ rs')) o)
small_first link need r rs h result none v apart out here size w = w
small_first link need r rs h result (some (a, rs')) v apart out here size (h', e, w) =
    let same : read_link link h' ≡ r.start = kept_link v apart w link out ∙ here in
    (
      h',
      e,
      record {
        chain =
            (same, rw same (kept_frames v apart w ∙ size), rw same (unfold read_link in w.chain));
        magic = w.magic;
        frames = w.frames;
        other = λ x miss unlinked.
            w.other x (unfold held in omega (arith, miss))
              (unfold at_link in not_start r x v (unfold held in omega (arith, miss)));
        list = keeps_list link h h' w.list;
        free = w.free;
        used = w.used;
      },
    )

link_apart :
    (r : Run) (rs : List Run)
    → IsRun r
    → ((x : ℕ) → held x (r ∷ rs) ≤ 1)
    → (x : ℕ) → at_link (next_of r.start) x ≡ true
    → held x rs ≡ 0
unfolding at_link held
link_apart r rs v apart x e =
    let at : r.start ≡ x = eq_of_beq r.start x e in
    omega (arith, apart x, ap (λ y. hits y r) at, hits_start r v)

-- With more fuel than runs the loop ends: it returns NULL and changes nothing when first fit finds no
-- run, and otherwise takes the run that first fit takes.
pub walk_lem :
    (fuel need : ℕ) (link : Link) (rs : List Run) (h : Heap)
    → 0 < need
    → AllRuns rs
    → ((x : ℕ) → held x rs ≤ 1)
    → ((x : ℕ) → at_link link x ≡ true → held x rs ≡ 0)
    → Chain h.memory (read_link link h) rs
    → length rs < fuel
    → Walked link need rs h (walk fuel need link h) (first_fit need rs)
unfolding walk first_fit
walk_lem zero need link rs h pos v apart out c lt = elim lt [ ]
walk_lem (suc fuel) need link [] h pos v apart out c lt = rw c
walk_lem (suc fuel) need link (r ∷ rs) h pos v apart out c lt =
    let live : (r.start == 0) ≡ false = beq_of_ne r.start 0 (omega arith) in
    let size : h.memory (frames_at r.start) ≡ r.frames = rw c.0 at c.1 in
    let chain : Chain h.memory (h.memory r.start) rs = rw c.0 at c.2 in
    elim (Bool-cases (leb need r.frames)) [
      | inl fit ↦
          rw (c.0, live, size, fit)
            (
              (carve need link r.start h).1,
              ap (λ (ptr : ℕ). some (ptr, (carve need link r.start h).1))
                  (carve_ptr need link r.start h ∙ omega arith),
              carve_here need link r rs h pos v.0 v.1 apart out c.0 size chain (ground arith),
            )
      | inr tight ↦
          rw (c.0, live, size, tight)
            (small_first link need r rs h (walk fuel need (next_of r.start) h) (first_fit need rs)
              v.0 apart out c.0 size
              (walk_lem fuel need (next_of r.start) rs h pos v.1
                (λ x. unfold held in omega (arith, apart x)) (link_apart r rs v.0 apart)
                (unfold read_link in chain) (omega arith)))
    ]
