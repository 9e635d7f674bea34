-- ===== src/Isr/Stack.antt =====
-- The stack as a list of words, the top first.
use nadir_kernel.Base.{
  ℕ, ◌+◌, ◌-◌, ◌*◌, ◌^◌, ◌≤◌, ◌<◌, ◌≡◌, refl, ap, ◌∙◌, sym, List, [], ◌∷◌, ◌++◌, arith, length,
  update, add64, sub64,
}
use mathlib.Core.Path.{subst}
use nadir_kernel.Isr.{Reg, Cpu, Callee, Instr, push, pop, set_reg, push_word, step, exec}

-- The words from an address on.
abbrev pub Holds : (ℕ → ℕ) → ℕ → List ℕ → Type 0
Holds m a [] = Unit
Holds m a (w ∷ ws) = (m a ≡ w) × Holds m (a + 8) ws

Holds-update :
    (m : ℕ → ℕ) (i v a : ℕ) (ws : List ℕ) → i < a → Holds m a ws → Holds (update m i v) a ws
Holds-update m i v a [] lt h = tt
Holds-update m i v a (w ∷ ws) lt h =
    (ground (arith, h.0), Holds-update m i v (a + 8) ws (omega arith) h.1)

-- The stack holds these words and reaches up to `top`; behind `top` memory is as in `base`.
pub record Stacked (top : ℕ) (base : ℕ → ℕ) (ws : List ℕ) (c : Cpu) : Type 0 where
  pub height : c.rsp + 8 * length ws ≡ top
  pub fits : top < 2 ^ 64
  pub words : Holds c.memory c.rsp ws
  pub above : (a : ℕ) → top ≤ a → c.memory a ≡ base a

pub push_word-Stacked :
    {top : ℕ} {base : ℕ → ℕ} {ws : List ℕ} {c : Cpu} (v : ℕ)
    → Stacked top base ws c
    → 8 * (length ws + 1) ≤ top
    → Stacked top base (v ∷ ws) (push_word v c)
unfolding push_word
push_word-Stacked {top} {base} {ws} {c} v s room =
    let down : sub64 c.rsp 8 ≡ c.rsp - 8 = omega (arith, s.height, s.fits) in
    let up : c.rsp - 8 + 8 ≡ c.rsp = omega (arith, s.height) in
    rw down (record {
      height = omega (arith, s.height);
      fits = s.fits;
      words = (
        ground arith,
        Holds-update c.memory (c.rsp - 8) v (c.rsp - 8 + 8) ws (omega arith)
            (subst (λ (a : ℕ). Holds c.memory a ws) (sym up) s.words),
      );
      above = λ a h. ground (arith, s.above a h, s.height);
    })

-- A run of `push` instructions.
abbrev pub pushes : List Reg → List Instr
pushes [] = []
pushes (r ∷ rs) = push r ∷ pushes rs

unfoldable pub save : List Reg → Cpu → Cpu
save [] c = c
save (r ∷ rs) c = save rs (push_word (c.regs r) c)

-- The values that they leave on the stack.
abbrev pub saved : List Reg → (Reg → ℕ) → List ℕ → List ℕ
saved [] regs ws = ws
saved (r ∷ rs) regs ws = saved rs regs (regs r ∷ ws)

pub exec-pushes :
    {M : Type 0} (callee : Callee M) (rs : List Reg) (rest : List Instr) (c : Cpu) (m : M)
    → exec callee (pushes rs ++ rest) (c, m) ≡ exec callee rest (save rs c, m)
unfolding exec step save
exec-pushes callee [] rest c m = refl
exec-pushes callee (r ∷ rs) rest c m = exec-pushes callee rs rest (push_word (c.regs r) c) m

-- The state after them: only the stack has changed.
pub record Saved (top : ℕ) (base : ℕ → ℕ) (rs : List Reg) (ws : List ℕ) (c c' : Cpu) : Type 0 where
  pub regs_eq : c'.regs ≡ c.regs
  pub stacked : Stacked top base (saved rs c.regs ws) c'

pub save-Saved :
    {top : ℕ} {base : ℕ → ℕ} {ws : List ℕ} {c : Cpu} (rs : List Reg)
    → Stacked top base ws c
    → 8 * (length ws + length rs) ≤ top
    → Saved top base rs ws c (save rs c)
unfolding save
save-Saved [] s room = record { regs_eq = refl; stacked = s }
save-Saved {top} {base} {ws} {c} (r ∷ rs) s room =
    let more =
      save-Saved {ws = c.regs r ∷ ws} {c = push_word (c.regs r) c} rs
        (push_word-Stacked (c.regs r) s (omega arith)) (omega arith) in
    let kept : (push_word (c.regs r) c).regs ≡ c.regs = (unfold push_word in refl) in
    record {
      regs_eq = more.regs_eq ∙ kept;
      stacked =
          subst
            (λ (g : Reg → ℕ).
              Stacked top base (saved rs g (c.regs r ∷ ws)) (save rs (push_word (c.regs r) c)))
            kept more.stacked;
    }

-- A run of `pop` instructions.
abbrev pub pops : List Reg → List Instr
pops [] = []
pops (r ∷ rs) = pop r ∷ pops rs

unfoldable pub load : List Reg → Cpu → Cpu
load [] c = c
load (r ∷ rs) c =
    load rs (record c { regs = set_reg r (c.memory c.rsp) c.regs; rsp = add64 c.rsp 8 })

-- The registers that they leave.
unfoldable pub loaded : List Reg → List ℕ → (Reg → ℕ) → Reg → ℕ
loaded (r ∷ rs) (w ∷ ws) regs = loaded rs ws (set_reg r w regs)
loaded rs ws regs = regs

pub exec-pops :
    {M : Type 0} (callee : Callee M) (rs : List Reg) (rest : List Instr) (c : Cpu) (m : M)
    → exec callee (pops rs ++ rest) (c, m) ≡ exec callee rest (load rs c, m)
unfolding exec step load
exec-pops callee [] rest c m = refl
exec-pops callee (r ∷ rs) rest c m =
    exec-pops callee rs rest
      (record c { regs = set_reg r (c.memory c.rsp) c.regs; rsp = add64 c.rsp 8 }) m

-- The top of the stack is dropped.
pub drop-Stacked :
    {top : ℕ} {base : ℕ → ℕ} {w : ℕ} {ws : List ℕ} {c : Cpu} (regs : Reg → ℕ)
    → Stacked top base (w ∷ ws) c
    → Stacked top base ws (record c { regs = regs; rsp = add64 c.rsp 8 })
drop-Stacked {top} {base} {w} {ws} {c} regs s =
    let up : add64 c.rsp 8 ≡ c.rsp + 8 = omega (arith, s.height, s.fits) in
    rw up (record {
      height = omega (arith, s.height);
      fits = s.fits;
      words = s.words.1;
      above = s.above;
    })

pub record Loaded (top : ℕ) (base : ℕ → ℕ) (rs : List Reg) (vs ws : List ℕ) (c c' : Cpu)
    : Type 0 where
  pub regs_eq : c'.regs ≡ loaded rs vs c.regs
  pub stacked : Stacked top base ws c'

pub load-Loaded :
    {top : ℕ} {base : ℕ → ℕ} {ws : List ℕ} (rs : List Reg) (vs : List ℕ) {c : Cpu}
    → length rs ≡ length vs
    → Stacked top base (vs ++ ws) c
    → Loaded top base rs vs ws c (load rs c)
unfolding load loaded
load-Loaded [] [] e s = record { regs_eq = refl; stacked = s }
load-Loaded [] (v ∷ vs) e s = absurd (omega arith)
load-Loaded (r ∷ rs) [] e s = absurd (omega arith)
load-Loaded {top} {base} {ws} (r ∷ rs) (v ∷ vs) {c} e s =
    let more =
      load-Loaded rs vs
        {c = record c { regs = set_reg r (c.memory c.rsp) c.regs; rsp = add64 c.rsp 8 }}
        (omega arith) (drop-Stacked (set_reg r (c.memory c.rsp) c.regs) s) in
    record {
      regs_eq = more.regs_eq ∙ ap (λ (w : ℕ). loaded rs vs (set_reg r w c.regs)) s.words.0;
      stacked = more.stacked;
    }
