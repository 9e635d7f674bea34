-- ===== src/Idt/Gates.antt =====
-- Where the gates lead.
use nadir_kernel.Base.{
  ℕ, zero, suc, ◌+◌, ◌-◌, ◌*◌, ◌%◌, ◌^◌, ◌≤◌, ◌<◌, ◌≡◌, ◌⊎◌, refl, ap, sym, ◌∙◌, false, arith, ◌==◌,
  Bool-cases, inl, inr, beq_of_ne, beq_of_eq,
}
use mathlib.Core.Path.{subst}
use nadir_kernel.Idt.{Idt, IdtEntry, idt_set_gate, set_gates, idt_init, idt_install_irqs}

-- The address that the processor takes from a gate.
abbrev pub target : IdtEntry → ℕ
target e = e.offset_low + e.offset_mid * 2 ^ 16 + e.offset_high * 2 ^ 32

-- A present interrupt gate for ring 0 in the kernel's code segment that leads to `handler`.
pub record IsGate (handler : ℕ) (e : IdtEntry) : Type 0 where
  pub leads : target e ≡ handler
  pub segment : e.selector ≡ 0x18
  pub stack : e.ist ≡ 0
  pub kind : e.type_attr ≡ 0x8e
  pub reserved_eq : e.reserved ≡ 0

idt_set_gate-IsGate :
    (vector handler : ℕ) (t : Idt)
    → handler < 2 ^ 64
    → IsGate handler ((idt_set_gate vector handler 0x18 0 0x8e t).idt vector)
unfolding idt_set_gate
idt_set_gate-IsGate vector handler t h =
    rw (beq_of_eq vector vector refl) (record {
      leads = omega arith;
      segment = refl;
      stack = refl;
      kind = refl;
      reserved_eq = refl;
    })

idt_set_gate_other :
    (vector handler selector ist flags : ℕ) (t : Idt) (v : ℕ)
    → (vector == v) ≡ false
    → (idt_set_gate vector handler selector ist flags t).idt v ≡ t.idt v
unfolding idt_set_gate
idt_set_gate_other vector handler selector ist flags t v h = rw h

set_gates_outside :
    (n base : ℕ) (stubs : ℕ → ℕ) (i : ℕ) (t : Idt) (v : ℕ)
    → base + i + n ≤ 256
    → (v < base + i) ⊎ (base + i + n ≤ v)
    → (set_gates n base stubs i t).idt v ≡ t.idt v
unfolding set_gates
set_gates_outside zero base stubs i t v hn h = refl
set_gates_outside (suc n) base stubs i t v hn h =
    set_gates_outside n base stubs (i + 1) _ v (omega arith) (omega arith)
    ∙ idt_set_gate_other ((base + i) % 256) (stubs i) 0x18 0 0x8e t v (beq_of_ne _ v (omega arith))

set_gates_inside :
    (n base : ℕ) (stubs : ℕ → ℕ) (i : ℕ) (t : Idt) (v : ℕ)
    → ((k : ℕ) → stubs k < 2 ^ 64)
    → base + i + n ≤ 256
    → base + i ≤ v
    → v < base + i + n
    → IsGate (stubs (v - base)) ((set_gates n base stubs i t).idt v)
unfolding set_gates
set_gates_inside zero base stubs i t v hs hn lo hi = let no : 0 < 0 = omega arith in elim no [ ]
set_gates_inside (suc n) base stubs i t v hs hn lo hi =
    let next = idt_set_gate ((base + i) % 256) (stubs i) 0x18 0 0x8e t in
    elim (Bool-cases (base + i == v)) [
      | inl here ↦
          let vector : (base + i) % 256 ≡ v = ground arith in
          let index : v - base ≡ i = ground arith in
          subst (IsGate (stubs (v - base)))
            (sym (set_gates_outside n base stubs (i + 1) next v (omega arith) (ground arith)))
            (rw (vector, index) (idt_set_gate-IsGate v (stubs i) t (hs i)))
      | inr later ↦
          set_gates_inside n base stubs (i + 1) next v hs (omega arith) (ground arith) (omega arith)
    ]

first_gates :
    (isr : ℕ → ℕ) (t : Idt) (v : ℕ)
    → ((k : ℕ) → isr k < 2 ^ 64)
    → v < 32
    → IsGate (isr v) ((set_gates 32 0 isr 0 t).idt v)
first_gates isr t v hs h =
    let index : v - 0 ≡ v = omega arith in
    subst (λ (k : ℕ). IsGate (isr k) ((set_gates 32 0 isr 0 t).idt v)) index
      (set_gates_inside 32 0 isr 0 t v hs (omega arith) (omega arith) (omega arith))

set_gates_limit :
    (n base : ℕ) (stubs : ℕ → ℕ) (i : ℕ) (t : Idt) → (set_gates n base stubs i t).limit ≡ t.limit
unfolding set_gates idt_set_gate
set_gates_limit zero base stubs i t = refl
set_gates_limit (suc n) base stubs i t = set_gates_limit n base stubs (i + 1) _

-- What the two calls leave: vectors 0 to 31 lead to the exception stubs and 32 to 47 to the interrupt
-- stubs, and the other vectors are as they were.
pub record Installed (isr irq : ℕ → ℕ) (t t' : Idt) : Type 0 where
  pub exceptions : (v : ℕ) → v < 32 → IsGate (isr v) (t'.idt v)
  pub irqs : (v : ℕ) → 32 ≤ v → v < 48 → IsGate (irq (v - 32)) (t'.idt v)
  pub others : (v : ℕ) → 48 ≤ v → t'.idt v ≡ t.idt v
  pub covers : t'.limit + 1 ≡ 256 * 16

-- `idt_init` and then `idt_install_irqs` give each of the vectors 0 to 47 a present gate that leads to
-- its stub, whose 64-bit address the three parts of the gate give back, leave the other vectors alone
-- and load a limit that covers the 256 gates.
pub idt_install_irqs-idt_init :
    (isr irq : ℕ → ℕ) (address : ℕ) (t : Idt)
    → ((k : ℕ) → isr k < 2 ^ 64)
    → ((k : ℕ) → irq k < 2 ^ 64)
    → Installed isr irq t (idt_install_irqs irq (idt_init isr address t))
unfolding idt_init idt_install_irqs
idt_install_irqs-idt_init isr irq address t hisr hirq =
    let loaded = idt_init isr address t in
    record {
      exceptions = λ v h.
          subst (IsGate (isr v))
            (sym (set_gates_outside 16 32 irq 0 loaded v (omega arith) (omega arith)))
            (first_gates isr t v hisr h);
      irqs = λ v lo hi.
          set_gates_inside 16 32 irq 0 loaded v hirq (omega arith) (omega arith) (omega arith);
      others = λ v h.
          set_gates_outside 16 32 irq 0 loaded v (omega arith) (omega arith)
          ∙ set_gates_outside 32 0 isr 0 t v (omega arith) (omega arith);
      covers = ap (λ (n : ℕ). n + 1) (set_gates_limit 16 32 irq 0 loaded);
    }
