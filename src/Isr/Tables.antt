-- ===== src/Isr/Tables.antt =====
-- The entries of a table of stubs.
use nadir_kernel.Base.{ℕ, zero, suc, ◌+◌, ◌<◌, ◌≡◌, ap, ◌∙◌, List, [], ◌∷◌, arith}
use nadir_kernel.Isr.{Instr, stub_at}

-- The code by a macro for `n` vectors from one on.
unfoldable pub stubs : (ℕ → List Instr) → ℕ → ℕ → List (List Instr)
stubs macro vector zero = []
stubs macro vector (suc n) = macro vector ∷ stubs macro (vector + 1) n

pub stub_at-stubs :
    (macro : ℕ → List Instr) (vector n i : ℕ)
    → i < n
    → stub_at i (stubs macro vector n) ≡ macro (vector + i)
unfolding stub_at stubs
stub_at-stubs macro vector zero i h = absurd (omega arith)
stub_at-stubs macro vector (suc n) zero h = ap macro (omega arith)
stub_at-stubs macro vector (suc n) (suc i) h =
    stub_at-stubs macro (vector + 1) n i (omega arith) ∙ ap macro (omega arith)
