-- ===== src/Isr/Resume.antt =====
-- Interrupts of devices, from the gate to the return.
use nadir_kernel.Base.{
  ℕ, ◌+◌, ◌%◌, ◌≤◌, ◌<◌, ◌≡◌, refl, ap, ◌∙◌, sym, fun_ext, List, [], ◌∷◌, ◌++◌, none, arith, add64,
}
use mathlib.Core.Path.{subst}
use nadir_kernel.Io.{Bus}
use nadir_kernel.Fault.{InterruptFrame}
use nadir_kernel.Irq.{Machine, irq_dispatch}
use nadir_kernel.Isr.{
  Reg, rax, rbx, rcx, rdx, rsi, rdi, rbp, r8, r9, r10, r11, r12, r13, r14, r15, Cpu, Entry, Callee,
  add_rsp, iretq, irq_noerr, irq_stubs, stub_at, irq_common, irq_entry, exec, step, c_function,
  push_word, deliver, set_reg, reg_number, return_from,
}
use nadir_kernel.Isr.Stack.{Holds, Stacked, saved, pops, load, loaded, exec-pops, load-Loaded}
use nadir_kernel.Isr.Tables.{stubs, stub_at-stubs}
use nadir_kernel.Isr.Frame.{
  frame_of, HasStack, Interrupting, exec-Calls, deliver-Interrupting, push_word-Interrupting,
  context, aligned, save_order,
}

-- What a C function keeps by its calling convention, if it is called with an aligned stack: the stack
-- pointer and what lies above it, though no register.
pub record KeepsStack (clobber : Cpu → Cpu) : Type 0 where
  pub rsp : (c : Cpu) → c.rsp % 16 ≡ 0 → (clobber c).rsp ≡ c.rsp
  pub memory : (c : Cpu) (a : ℕ) → c.rsp % 16 ≡ 0 → c.rsp ≤ a → (clobber c).memory a ≡ c.memory a

Holds-agree :
    (m m' : ℕ → ℕ) (a : ℕ) (ws : List ℕ)
    → ((i : ℕ) → a ≤ i → m' i ≡ m i)
    → Holds m a ws
    → Holds m' a ws
Holds-agree m m' a [] same h = tt
Holds-agree m m' a (w ∷ ws) same h =
    (same a (omega arith) ∙ h.0, Holds-agree m m' (a + 8) ws (λ i lt. same i (omega arith)) h.1)

clobber-Stacked :
    {top : ℕ} {base : ℕ → ℕ} {ws : List ℕ} (clobber : Cpu → Cpu) (c : Cpu)
    → KeepsStack clobber
    → c.rsp % 16 ≡ 0
    → Stacked top base ws c
    → Stacked top base ws (clobber c)
clobber-Stacked {top} {base} {ws} clobber c k al s = record {
  height = omega (arith, k.rsp c al, s.height);
  fits = s.fits;
  words =
      subst (λ (a : ℕ). Holds (clobber c).memory a ws) (sym (k.rsp c al))
        (Holds-agree c.memory (clobber c).memory c.rsp ws (λ i lt. k.memory c i al lt) s.words);
  above = λ a lt. k.memory c a al (omega (arith, s.height)) ∙ s.above a lt;
}

abbrev load_order : List Reg
load_order =
    r15 ∷ r14 ∷ r13 ∷ r12 ∷ r11 ∷ r10 ∷ r9 ∷ r8 ∷ rbp ∷ rdi ∷ rsi ∷ rdx ∷ rcx ∷ rbx ∷ rax ∷ []

-- Every register is popped, and gets the value that was pushed.
loaded-saved : (regs junk : Reg → ℕ) → loaded load_order (saved save_order regs []) junk ≡ regs
unfolding loaded set_reg reg_number
loaded-saved regs junk = fun_ext at
  where
    at : (r : Reg) → loaded load_order (saved save_order regs []) junk r ≡ regs r
    at rax = refl
    at rbx = refl
    at rcx = refl
    at rdx = refl
    at rsi = refl
    at rdi = refl
    at rbp = refl
    at r8 = refl
    at r9 = refl
    at r10 = refl
    at r11 = refl
    at r12 = refl
    at r13 = refl
    at r14 = refl
    at r15 = refl

-- A program after an interrupt: it goes on where it was, with its registers, flags and stack pointer,
-- and with what lies on its stack.
pub record Resumed (c c' : Cpu) : Type 0 where
  pub regs_eq : c'.regs ≡ c.regs
  pub rsp_eq : c'.rsp ≡ c.rsp
  pub rip_eq : c'.rip ≡ c.rip
  pub cs_eq : c'.cs ≡ c.cs
  pub ss_eq : c'.ss ≡ c.ss
  pub rflags_eq : c'.rflags ≡ c.rflags
  pub stack : (a : ℕ) → c.rsp ≤ a → c'.memory a ≡ c.memory a

-- `add rsp, 16` and `iretq` at the end.
leave-Resumed :
    {M : Type 0} (code : Callee M) (v e : ℕ) (c c' : Cpu) (m : M)
    → c'.regs ≡ c.regs
    → Stacked (aligned c.rsp) c.memory (v ∷ e ∷ context c) c'
    → (c'' : Cpu) × (exec code (add_rsp 16 ∷ iretq ∷ []) (c', m) ≡ (c'', m)) × Resumed c c''
unfolding exec step return_from
leave-Resumed code v e c c' m regs s =
    let two = add64 c'.rsp 16 in
    let mem = c'.memory in
    let a0 : two ≡ c'.rsp + 8 + 8 = omega (arith, s.height, s.fits) in
    let a1 : add64 two 8 ≡ c'.rsp + 8 + 8 + 8 = omega (arith, s.height, s.fits) in
    let a2 : add64 two 16 ≡ c'.rsp + 8 + 8 + 8 + 8 = omega (arith, s.height, s.fits) in
    let a3 : add64 two 24 ≡ c'.rsp + 8 + 8 + 8 + 8 + 8 = omega (arith, s.height, s.fits) in
    let a4 : add64 two 32 ≡ c'.rsp + 8 + 8 + 8 + 8 + 8 + 8 = omega (arith, s.height, s.fits) in
    (
      return_from (record c' { rsp = two }),
      refl,
      record {
        regs_eq = regs;
        rip_eq = ap mem a0 ∙ s.words.1.1.0;
        cs_eq = ap mem a1 ∙ s.words.1.1.1.0;
        rflags_eq = ap mem a2 ∙ s.words.1.1.1.1.0;
        rsp_eq = ap mem a3 ∙ s.words.1.1.1.1.1.0;
        ss_eq = ap mem a4 ∙ s.words.1.1.1.1.1.1.0;
        stack = λ a lt. s.above a (omega arith);
      },
    )

irq_stubs-stubs : irq_stubs ≡ stubs irq_noerr 32 16
unfolding stubs
irq_stubs-stubs = refl

-- The code of a line's stub.
irq_stub_lem : (irq : ℕ) → irq < 16 → stub_at irq irq_stubs ≡ irq_noerr (32 + irq)
irq_stub_lem irq lt = ap (stub_at irq) irq_stubs-stubs ∙ stub_at-stubs irq_noerr 32 16 irq lt

-- The part behind the call.
restore-Resumed :
    {M : Type 0} (code : Callee M) (v e : ℕ) (c c' : Cpu) (m : M)
    → Stacked (aligned c.rsp) c.memory (saved save_order c.regs (v ∷ e ∷ context c)) c'
    → (c'' : Cpu) × (exec code (pops load_order ++ (add_rsp 16 ∷ iretq ∷ [])) (c', m) ≡ (c'', m))
      × Resumed c c''
restore-Resumed code v e c c' m s =
    let l = load-Loaded load_order (saved save_order c.regs []) {c = c'} refl s in
    let (c'', run, r) =
      leave-Resumed code v e c (load load_order c') m (l.regs_eq ∙ loaded-saved c.regs c'.regs)
        l.stacked in
    (c'', exec-pops code load_order (add_rsp 16 ∷ iretq ∷ []) c' m ∙ run, r)

-- An interrupt on one of the 16 lines runs `irq_dispatch` once, on the line's vector, with an aligned
-- stack; then the interrupted program goes on with every register, its flags, its stack pointer and its
-- stack as they were, whatever registers the compiled function uses. The stack has room for 184 bytes.
pub irq_entry-Resumed :
    (clobber : Cpu → Cpu) (bus : Bus) (g : Entry) (irq : ℕ) (c : Cpu) (m : Machine)
    → KeepsStack clobber
    → irq < 16
    → HasStack c
    → (c' : Cpu) × (irq_entry clobber bus g irq (c, m) ≡ (c', irq_dispatch bus (32 + irq) m))
      × Resumed c c'
unfolding irq_entry irq_common
irq_entry-Resumed clobber bus g irq c m k lt h =
    let handler = λ (f : InterruptFrame). irq_dispatch bus f.vector in
    let code = c_function clobber handler in
    let c1 = push_word (32 + irq) (push_word 0 (deliver g none c)) in
    let i : Interrupting ((32 + irq) ∷ 0 ∷ context c) c c1 =
      push_word-Interrupting (32 + irq)
        (push_word-Interrupting 0 (deliver-Interrupting g none c h) (omega arith)) (omega arith) in
    let x =
      exec-Calls clobber handler (32 + irq) 0 (pops load_order ++ (add_rsp 16 ∷ iretq ∷ [])) m c c1
        h i in
    let (c', run, r) =
      restore-Resumed code (32 + irq) 0 c (clobber x.called) (irq_dispatch bus (32 + irq) m)
        (clobber-Stacked clobber x.called k x.ready x.stacked) in
    (c', rw (irq_stub_lem irq lt) (unfold exec step frame_of in (x.result ∙ run)), r)
