-- ===== src/Isr/Processor.antt =====
-- The part of a 64-bit processor that the stubs of kernel/arch/x86_64/isr.asm use: its registers, a stack in
-- a memory of 64-bit words, and the instructions.
use nadir_kernel.Base.{ℕ, List, [], ◌∷◌, ◌==◌, if◌then◌else◌, update, add64, sub64}

-- The general-purpose registers but rsp.
pub data Reg : Type 0 where
  rax rbx rcx rdx rsi rdi rbp r8 r9 r10 r11 r12 r13 r14 r15 : Reg

unfoldable pub reg_number : Reg → ℕ
reg_number rax = 0
reg_number rcx = 1
reg_number rdx = 2
reg_number rbx = 3
reg_number rbp = 5
reg_number rsi = 6
reg_number rdi = 7
reg_number r8 = 8
reg_number r9 = 9
reg_number r10 = 10
reg_number r11 = 11
reg_number r12 = 12
reg_number r13 = 13
reg_number r14 = 14
reg_number r15 = 15

pub record Cpu : Type 0 where
  pub regs : Reg → ℕ
  pub rsp : ℕ
  pub rip : ℕ
  pub cs : ℕ
  pub ss : ℕ
  pub rflags : ℕ
  pub memory : ℕ → ℕ

unfoldable pub set_reg : Reg → ℕ → (Reg → ℕ) → Reg → ℕ
set_reg r v regs q = if reg_number r == reg_number q then v else regs q

unfoldable pub push_word : ℕ → Cpu → Cpu
push_word v c = record c { rsp = sub64 c.rsp 8; memory = update c.memory (sub64 c.rsp 8) v }

-- The instructions that the stubs use; `call` is the call of the C handler.
pub data Instr : Type 0 where
  push_imm : ℕ → Instr
  push pop mov_rsp : Reg → Instr
  add_rsp : ℕ → Instr
  call iretq : Instr

-- A C function: what it does to the processor until it has returned, and to the kernel's state.
abbrev pub Callee : Type 0 → Type 0
Callee M = Cpu → M → Cpu × M

-- `iretq` in 64-bit mode
unfoldable pub return_from : Cpu → Cpu
return_from c = record c {
  rip = c.memory c.rsp;
  cs = c.memory (add64 c.rsp 8);
  rflags = c.memory (add64 c.rsp 16);
  rsp = c.memory (add64 c.rsp 24);
  ss = c.memory (add64 c.rsp 32);
}

unfoldable pub step : {M : Type 0} → Callee M → Instr → Cpu × M → Cpu × M
step callee (push_imm v) (c, m) = (push_word v c, m)
step callee (push r) (c, m) = (push_word (c.regs r) c, m)
step callee (pop r) (c, m) =
    (record c { regs = set_reg r (c.memory c.rsp) c.regs; rsp = add64 c.rsp 8 }, m)
step callee (mov_rsp r) (c, m) = (record c { regs = set_reg r c.rsp c.regs }, m)
step callee (add_rsp n) (c, m) = (record c { rsp = add64 c.rsp n }, m)
step callee call (c, m) = callee c m
step callee iretq (c, m) = (return_from c, m)

unfoldable pub exec : {M : Type 0} → Callee M → List Instr → Cpu × M → Cpu × M
exec callee [] s = s
exec callee (i ∷ is) s = exec callee is (step callee i s)
