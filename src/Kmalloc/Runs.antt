-- ===== src/Kmalloc/Runs.antt =====
-- The abstract view of the heap: runs of frames, the bytes that they hold, and first fit.
use nadir_kernel.Base.{
  ◌%◌, ℕ, ◌+◌, ◌-◌, ◌*◌, ◌≤◌, ◌<◌, ◌≡◌, ◌&&◌, Option, none, some, List, [], ◌∷◌, arith, ltb, leb,
  if◌then◌else◌, length, Bool-cases, inl, inr,
}
use mathlib.Core.Option

pub record Run : Type 0 where
  pub start : ℕ
  pub frames : ℕ

abbrev pub run : ℕ → ℕ → Run
run a n = record { start = a; frames = n }

-- 1 if byte `x` lies in the run.
unfoldable pub hits : ℕ → Run → ℕ
hits x r = if leb r.start x && ltb x (r.start + r.frames * 4096) then 1 else 0

-- How many of the runs hold byte `x`.
unfoldable pub held : ℕ → List Run → ℕ
held x [] = 0
held x (r ∷ rs) = hits x r + held x rs

unfoldable pub total : List Run → ℕ
total [] = 0
total (r ∷ rs) = r.frames + total rs

-- A run has frames, lies inside the first gigabyte and does not start at 0.
pub record IsRun (r : Run) : Type 0 where
  pub start : 0 < r.start
  pub aligned : r.start % 4096 ≡ 0
  pub frames : 0 < r.frames
  pub inside : r.start + r.frames * 4096 ≤ 0x4000_0000

abbrev pub AllRuns : List Run → Type 0
AllRuns [] = Unit
AllRuns (r ∷ rs) = IsRun r × AllRuns rs

-- What is left of a run when its first `need` frames are taken, in front of the other runs.
unfoldable pub rest_of : ℕ → Run → List Run → List Run
rest_of need r rs =
    if ltb need r.frames then run (r.start + need * 4096) (r.frames - need) ∷ rs else rs

-- The first run that has `need` frames gives them up: its address and the runs that remain.
unfoldable pub first_fit : ℕ → List Run → Option (ℕ × List Run)
first_fit need [] = none
first_fit need (r ∷ rs) =
    if leb need r.frames
    then some (r.start, rest_of need r rs)
    else Option.map (λ (a, rs'). (a, r ∷ rs')) (first_fit need rs)

pub hits-le : (x : ℕ) (r : Run) → hits x r ≤ 1
unfolding hits
hits-le x r = ground arith

pub hits_start : (r : Run) → IsRun r → hits r.start r ≡ 1
unfolding hits
hits_start r v = ground arith

pub hits_frames : (r : Run) → IsRun r → hits (r.start + 8) r ≡ 1
unfolding hits
hits_frames r v = ground arith

-- Taking frames from a run splits its bytes in two.
hits_split :
    (x a need n : ℕ)
    → need < n
    → hits x (run a need) + hits x (run (a + need * 4096) (n - need)) ≡ hits x (run a n)
unfolding hits
hits_split x a need n h = ground arith

pub held-rest_of :
    (x need : ℕ) (r : Run) (rs : List Run)
    → need ≤ r.frames
    → held x (rest_of need r rs) + hits x (run r.start need) ≡ held x (r ∷ rs)
unfolding rest_of held
held-rest_of x need r rs h = elim (Bool-cases (ltb need r.frames)) [
  | inl less ↦ rw less (omega (arith, hits_split x r.start need r.frames (ground arith)))
  | inr all ↦ rw all (let e : need ≡ r.frames = ground arith in rw e (omega arith))
]

-- What a successful first fit does to the list.
pub record Fits (need : ℕ) (rs : List Run) (a : ℕ) (rs' : List Run) : Type 0 where
  pub bytes : (x : ℕ) → held x rs' + hits x (run a need) ≡ held x rs
  pub frames : total rs' + need ≡ total rs
  pub runs : AllRuns rs'
  pub taken : IsRun (run a need)

total-rest_of :
    (need : ℕ) (r : Run) (rs : List Run)
    → need ≤ r.frames
    → total (rest_of need r rs) + need ≡ total (r ∷ rs)
unfolding rest_of total
total-rest_of need r rs h = ground arith

rest_of-AllRuns :
    (need : ℕ) (r : Run) (rs : List Run) → IsRun r → AllRuns rs → AllRuns (rest_of need r rs)
unfolding rest_of
rest_of-AllRuns need r rs v vs = ground arith

-- Every run is too small.
abbrev pub AllSmall : ℕ → List Run → Type 0
AllSmall need [] = Unit
AllSmall need (r ∷ rs) = (r.frames < need) × AllSmall need rs

abbrev pub Outcome : ℕ → List Run → Option (ℕ × List Run) → Type 0
Outcome need rs none = AllSmall need rs
Outcome need rs (some (a, rs')) = Fits need rs a rs'

taken_here :
    (need : ℕ) (r : Run) (rs : List Run)
    → 0 < need
    → AllRuns (r ∷ rs)
    → need ≤ r.frames
    → Fits need (r ∷ rs) r.start (rest_of need r rs)
taken_here need r rs pos vs h = record {
  bytes = λ x. held-rest_of x need r rs h;
  frames = total-rest_of need r rs h;
  runs = rest_of-AllRuns need r rs vs.0 vs.1;
  taken = ground arith;
}

taken_later :
    (need : ℕ) (r : Run) (rs : List Run) (o : Option (ℕ × List Run))
    → IsRun r
    → r.frames < need
    → Outcome need rs o
    → Outcome need (r ∷ rs) (Option.map (λ (a, rs'). (a, r ∷ rs')) o)
unfolding held total
taken_later need r rs none v h small = (h, small)
taken_later need r rs (some (a, rs')) v h fits = record {
  bytes = λ x. omega (arith, fits.bytes x);
  frames = omega (arith, fits.frames);
  runs = (v, fits.runs);
  taken = fits.taken;
}

-- First fit either finds every run too small, or takes exactly `need` frames from one run.
pub first_fit_lem :
    (need : ℕ) (rs : List Run) → 0 < need → AllRuns rs → Outcome need rs (first_fit need rs)
unfolding first_fit
first_fit_lem need [] pos vs = tt
first_fit_lem need (r ∷ rs) pos vs = elim (Bool-cases (leb need r.frames)) [
  | inl fit ↦ rw fit (taken_here need r rs pos vs (ground arith))
  | inr tight ↦ rw tight (
      taken_later need r rs (first_fit need rs) vs.0 (ground arith)
        (first_fit_lem need rs pos vs.1))
]

pub length-le-total : (rs : List Run) → AllRuns rs → length rs ≤ total rs
unfolding total
length-le-total [] v = omega arith
length-le-total (r ∷ rs) v = omega (arith, length-le-total rs v.1)
