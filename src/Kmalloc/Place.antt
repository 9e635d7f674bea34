-- ===== src/Kmalloc/Place.antt =====
-- Taking frames from the run that the link leads to.
use nadir_kernel.Base.{
  ℕ, ◌+◌, ◌-◌, ◌*◌, ◌≤◌, ◌<◌, ◌≡◌, refl, ◌∙◌, true, false, List, ◌∷◌, arith, ltb, ◌==◌, Bool-cases,
  inl, inr, add64, ap, beq_of_ne, beq_of_eq,
}
use nadir_kernel.Kmalloc.{Heap, frames_at, Link, read_link, carve}
use nadir_kernel.Kmalloc.Runs.{
  Run, run, IsRun, AllRuns, hits, held, hits_start, hits_frames, rest_of,
}
use nadir_kernel.Kmalloc.Chain.{Chain, Agree, Chain-Agree, frames_at_lem}
use nadir_kernel.Kmalloc.Carve.{
  at_link, Carved, split_memory, whole_memory, carve_list, carve_counters, carve_next,
}

module _ (need : ℕ) (link : Link) (r : Run) (rs : List Run) (h : Heap) (pos : 0 < need)
    (v : IsRun r) (vs : AllRuns rs) (apart : (x : ℕ) → held x (r ∷ rs) ≤ 1)
    (out : (x : ℕ) → at_link link x ≡ true → held x (r ∷ rs) ≡ 0)
    (here : read_link link h ≡ r.start) (size : h.memory (frames_at r.start) ≡ r.frames)
    (c : Chain h.memory (h.memory r.start) rs) (fit : need ≤ r.frames) where
  not_link : (x : ℕ) → hits x r ≡ 1 → at_link link x ≡ false
  not_link x e = elim (Bool-cases (at_link link x)) [
    | inr no' ↦ no'
    | inl yes' ↦ absurd (unfold held in omega (arith, out x yes'))
  ]

  off_run : (x : ℕ) → hits x r ≡ 0 → ((frames_at r.start == x) ≡ false) × ((r.start == x) ≡ false)
  off_run x miss = (
    beq_of_ne (frames_at r.start) x
        (λ e. absurd (omega (arith, miss, e, frames_at_lem r v, on_frames x e))),
    beq_of_ne r.start x (λ e. absurd (omega (arith, miss, on_start x e))),
  )
    where
      on_start : (x : ℕ) → r.start ≡ x → hits x r ≡ 1
      on_start x e = rw (← e) (hits_start r v)

      on_frames : (x : ℕ) → frames_at r.start ≡ x → hits x r ≡ 1
      on_frames x e = rw (← e, frames_at_lem r v) (hits_frames r v)

  -- A byte of a later run is none of the run, and is not the link.
  later : (x : ℕ) → 0 < held x rs → (hits x r ≡ 0) × (at_link link x ≡ false)
  later x h' = (
    unfold held in omega (arith, apart x),
    elim (Bool-cases (at_link link x)) [
      | inr no' ↦ no'
      | inl yes' ↦ absurd (unfold held in omega (arith, out x yes'))
    ],
  )

  whole_here :
      ltb need r.frames ≡ false
      → Carved link need (r ∷ rs) r.start rs h (carve need link r.start h).1
  whole_here all =
      let all' : ltb need (h.memory (frames_at r.start)) ≡ false = rw size all in
      let exact : r.frames ≡ need = ground arith in
      let far : (frames_at r.start == r.start) ≡ false =
        beq_of_ne _ _ (omega (arith, frames_at_lem r v)) in
      let next : read_link link (carve need link r.start h).1 ≡ h.memory r.start = rw (
        carve_next need link r.start h (not_link r.start (hits_start r v))
            (not_link (frames_at r.start) (rw (frames_at_lem r v) (hits_frames r v))),
        all',
      ) in
      record {
        chain = rw next (
            Chain-Agree rs (h.memory r.start) {mem = h.memory}
              {mem' = (carve need link r.start h).1.memory} vs
              (λ x h'.
                let (miss, unlinked) = later x h' in
                let (f, s) = off_run x miss in
                whole_memory need link r.start h x all' ∙ rw (f, s, unlinked))
              c);
        magic =
            whole_memory need link r.start h r.start all'
            ∙ rw (far, beq_of_eq r.start r.start refl);
        frames =
            whole_memory need link r.start h (frames_at r.start) all'
            ∙ rw (beq_of_eq (frames_at r.start) (frames_at r.start) refl) (size ∙ exact);
        other = λ x miss unlinked.
            let (f, s) = off_run x (unfold held in omega (arith, miss)) in
            whole_memory need link r.start h x all' ∙ rw (f, s, unlinked);
        list = carve_list need link r.start h;
        free = (carve_counters need link r.start h (omega arith)).0;
        used = (carve_counters need link r.start h (omega arith)).1;
      }

  module _ (less : ltb need r.frames ≡ true) where
    left : Run
    left = run (r.start + need * 4096) (r.frames - need)

    left-IsRun : IsRun left
    unfolding left
    left-IsRun = ground arith

    inside : (x : ℕ) → hits x left ≡ 1 → hits x r ≡ 1
    unfolding hits left
    inside x e = ground arith

    start_in : hits left.start r ≡ 1
    start_in = inside left.start (hits_start left left-IsRun)

    left_frames : frames_at left.start ≡ left.start + 8
    left_frames = frames_at_lem left left-IsRun

    frames_in : hits (frames_at left.start) r ≡ 1
    frames_in = rw left_frames (inside (left.start + 8) (hits_frames left left-IsRun))

    tail_lem : add64 r.start (need * 4096) ≡ left.start
    unfolding left
    tail_lem = ground arith

    off_left :
        (x : ℕ) → hits x r ≡ 0 → ((frames_at left.start == x) ≡ false) × ((left.start == x) ≡ false)
    off_left x miss = (
      beq_of_ne (frames_at left.start) x
          (λ e. absurd (omega (arith, miss, ap (λ y. hits y r) e, frames_in))),
      beq_of_ne left.start x (λ e. absurd (omega (arith, miss, ap (λ y. hits y r) e, start_in))),
    )

    less' : ltb need (h.memory (frames_at r.start)) ≡ true
    less' = rw size less

    far : (a b : ℕ) → a < b → (a == b) ≡ false
    far a b lt = ground arith

    near : (a b : ℕ) → b < a → (a == b) ≡ false
    near a b lt = ground arith

    beyond : r.start + 8 < left.start
    unfolding left
    beyond = omega arith

    next : read_link link (carve need link r.start h).1 ≡ left.start
    next =
        carve_next need link r.start h (not_link r.start (hits_start r v))
          (not_link (frames_at r.start) (rw (frames_at_lem r v) (hits_frames r v)))
        ∙ rw less' tail_lem

    at_left : (carve need link r.start h).1.memory left.start ≡ h.memory r.start
    at_left =
        split_memory need link r.start h left.start less'
        ∙ rw
            (
              tail_lem,
              far (frames_at r.start) left.start (omega (arith, frames_at_lem r v, beyond)),
              far r.start left.start (omega (arith, beyond)),
              not_link left.start start_in,
              near (frames_at left.start) left.start (omega (arith, left_frames)),
              beq_of_eq left.start left.start refl,
            )
            refl

    at_left_frames : (carve need link r.start h).1.memory (frames_at left.start) ≡ left.frames
    unfolding left
    at_left_frames =
        let p8 = frames_at_lem r v in
        split_memory need link r.start h (frames_at left.start) less'
        ∙ rw
            (
              tail_lem,
              far (frames_at r.start) (frames_at left.start)
                  (omega (arith, p8, left_frames, beyond)),
              far r.start (frames_at left.start) (omega (arith, left_frames, beyond)),
              not_link (frames_at left.start) frames_in,
              beq_of_eq (frames_at left.start) (frames_at left.start) refl,
              near left.start (frames_at r.start) (omega (arith, p8, beyond)),
              size,
            )
            (ground arith)

    agree : Agree rs h.memory (carve need link r.start h).1.memory
    agree x more =
        let (miss, unlinked) = later x more in
        let (f, s) = off_run x miss in
        let (lf, ls) = off_left x miss in
        split_memory need link r.start h x less' ∙ rw (f, s, unlinked, tail_lem, lf, ls)

    split_here : Carved link need (r ∷ rs) r.start (left ∷ rs) h (carve need link r.start h).1
    split_here = record {
      chain = (
        next,
        rw next at_left_frames,
        rw (next, at_left)
            (Chain-Agree rs (h.memory r.start) {mem = h.memory}
              {mem' = (carve need link r.start h).1.memory} vs agree c),
      );
      magic =
          split_memory need link r.start h r.start less'
          ∙ rw (
            near (frames_at r.start) r.start (omega (arith, frames_at_lem r v)),
            beq_of_eq r.start r.start refl,
          );
      frames =
          split_memory need link r.start h (frames_at r.start) less'
          ∙ rw (beq_of_eq (frames_at r.start) (frames_at r.start) refl);
      other = λ x miss unlinked.
          let none' : hits x r ≡ 0 = (unfold held in omega (arith, miss)) in
          let (f, s) = off_run x none' in
          let (lf, ls) = off_left x none' in
          split_memory need link r.start h x less' ∙ rw (f, s, unlinked, tail_lem, lf, ls);
      list = carve_list need link r.start h;
      free = (carve_counters need link r.start h (omega arith)).0;
      used = (carve_counters need link r.start h (omega arith)).1;
    }

  -- The run that the link leads to fits: `carve` leaves what first fit leaves.
  pub carve_here :
      Carved link need (r ∷ rs) r.start (rest_of need r rs) h (carve need link r.start h).1
  carve_here = elim (Bool-cases (ltb need r.frames)) [
    | inl less ↦ unfold rest_of in rw less (unfold left in split_here less)
    | inr all ↦ unfold rest_of in rw all (whole_here all)
  ]
