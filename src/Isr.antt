-- ===== src/Isr.antt =====
-- kernel/arch/x86_64/isr.asm: the stubs between the gates of the interrupt table and the C handlers, on a
-- processor with its registers and a memory of 64-bit words. A `jmp` is the code that follows at its
-- target. What the processor does at an interrupt and at `iretq` is that of the processor's manual: in
-- 64-bit mode it aligns the stack to 16 bytes and pushes ss and rsp also without a change of privilege.
-- The registers that a compiled C function clobbers are a parameter.

mod Processor
pub mod Stack
pub mod Tables
pub mod Frame
pub mod Exception
pub mod Resume
mod Examples
use nadir_kernel.Base.{
  ℕ, zero, suc, ◌+◌, ◌*◌, ◌/◌, Bool, true, false, ◌&&◌, ◌||◌, List, [], ◌∷◌, ◌++◌, Option, none,
  some, leb, ◌==◌, if◌then◌else◌, update, add64, sub64,
}
use nadir_kernel.Io.{Bus}
use nadir_kernel.Console.{Console}
use nadir_kernel.Irq.{Machine, irq_dispatch}
use nadir_kernel.Fault.{InterruptFrame, exception_handler}
unfoldable pub use Processor.*

-- The macros.
abbrev pub isr_noerr : ℕ → List Instr
isr_noerr vector = push_imm 0 ∷ push_imm vector ∷ []

abbrev pub isr_err : ℕ → List Instr
isr_err vector = push_imm vector ∷ []

abbrev pub irq_noerr : ℕ → List Instr
irq_noerr vector = push_imm 0 ∷ push_imm vector ∷ []

unfoldable pub stub_at : ℕ → List (List Instr) → List Instr
stub_at i [] = []
stub_at zero (x ∷ xs) = x
stub_at (suc i) (x ∷ xs) = stub_at i xs

-- `isr_stub_table`
abbrev pub isr_stubs : List (List Instr)
isr_stubs =
    isr_noerr 0
    ∷ isr_noerr 1
    ∷ isr_noerr 2
    ∷ isr_noerr 3
    ∷ isr_noerr 4
    ∷ isr_noerr 5
    ∷ isr_noerr 6
    ∷ isr_noerr 7
    ∷ isr_err 8
    ∷ isr_noerr 9
    ∷ isr_err 10
    ∷ isr_err 11
    ∷ isr_err 12
    ∷ isr_err 13
    ∷ isr_err 14
    ∷ isr_noerr 15
    ∷ isr_noerr 16
    ∷ isr_err 17
    ∷ isr_noerr 18
    ∷ isr_noerr 19
    ∷ isr_noerr 20
    ∷ isr_err 21
    ∷ isr_noerr 22
    ∷ isr_noerr 23
    ∷ isr_noerr 24
    ∷ isr_noerr 25
    ∷ isr_noerr 26
    ∷ isr_noerr 27
    ∷ isr_noerr 28
    ∷ isr_noerr 29
    ∷ isr_noerr 30
    ∷ isr_noerr 31
    ∷ []

-- `irq_stub_table`
abbrev pub irq_stubs : List (List Instr)
irq_stubs =
    irq_noerr 32
    ∷ irq_noerr 33
    ∷ irq_noerr 34
    ∷ irq_noerr 35
    ∷ irq_noerr 36
    ∷ irq_noerr 37
    ∷ irq_noerr 38
    ∷ irq_noerr 39
    ∷ irq_noerr 40
    ∷ irq_noerr 41
    ∷ irq_noerr 42
    ∷ irq_noerr 43
    ∷ irq_noerr 44
    ∷ irq_noerr 45
    ∷ irq_noerr 46
    ∷ irq_noerr 47
    ∷ []

-- Up to the call; after it the processor is parked.
unfoldable pub isr_common : List Instr
isr_common =
    push rax
    ∷ push rbx
    ∷ push rcx
    ∷ push rdx
    ∷ push rsi
    ∷ push rdi
    ∷ push rbp
    ∷ push r8
    ∷ push r9
    ∷ push r10
    ∷ push r11
    ∷ push r12
    ∷ push r13
    ∷ push r14
    ∷ push r15
    ∷ mov_rsp rdi
    ∷ call
    ∷ []

unfoldable pub irq_common : List Instr
irq_common =
    push rax
    ∷ push rbx
    ∷ push rcx
    ∷ push rdx
    ∷ push rsi
    ∷ push rdi
    ∷ push rbp
    ∷ push r8
    ∷ push r9
    ∷ push r10
    ∷ push r11
    ∷ push r12
    ∷ push r13
    ∷ push r14
    ∷ push r15
    ∷ mov_rsp rdi
    ∷ call
    ∷ pop r15
    ∷ pop r14
    ∷ pop r13
    ∷ pop r12
    ∷ pop r11
    ∷ pop r10
    ∷ pop r9
    ∷ pop r8
    ∷ pop rbp
    ∷ pop rdi
    ∷ pop rsi
    ∷ pop rdx
    ∷ pop rcx
    ∷ pop rbx
    ∷ pop rax
    ∷ add_rsp 16
    ∷ iretq
    ∷ []

-- `struct interrupt_frame` at an address
unfoldable pub frame_at : (ℕ → ℕ) → ℕ → InterruptFrame
frame_at mem p = record {
  r15 = mem p;
  r14 = mem (p + 8);
  r13 = mem (p + 16);
  r12 = mem (p + 24);
  r11 = mem (p + 32);
  r10 = mem (p + 40);
  r9 = mem (p + 48);
  r8 = mem (p + 56);
  rbp = mem (p + 64);
  rdi = mem (p + 72);
  rsi = mem (p + 80);
  rdx = mem (p + 88);
  rcx = mem (p + 96);
  rbx = mem (p + 104);
  rax = mem (p + 112);
  vector = mem (p + 120);
  error = mem (p + 128);
  rip = mem (p + 136);
  cs = mem (p + 144);
  rflags = mem (p + 152);
  rsp = mem (p + 160);
  ss = mem (p + 168);
}

-- Where a gate leads: the values of rip, cs and rflags in the handler.
pub record Entry : Type 0 where
  pub rip : ℕ
  pub cs : ℕ
  pub rflags : ℕ

push_error : Option ℕ → Cpu → Cpu
push_error none c = c
push_error (some code) c = push_word code c

push_context : Cpu → Cpu
push_context c =
    let aligned = record c { rsp = c.rsp / 16 * 16 } in
    push_word c.rip (push_word c.cs (push_word c.rflags (push_word c.rsp (push_word c.ss aligned))))

-- The processor goes through a gate, with an error code or without.
unfoldable pub deliver : Entry → Option ℕ → Cpu → Cpu
unfolding push_error push_context
deliver g error c = record (push_error error (push_context c)) {
  rip = g.rip;
  cs = g.cs;
  rflags = g.rflags;
}

-- A handler that takes the frame that rdi points at, and clobbers registers.
unfoldable pub c_function : {M : Type 0} → (Cpu → Cpu) → (InterruptFrame → M → M) → Callee M
c_function clobber handler c m = (clobber c, handler (frame_at c.memory (c.regs rdi)) m)

-- An interrupt on one of the 16 lines, from the gate to the return.
unfoldable pub irq_entry : (Cpu → Cpu) → Bus → Entry → ℕ → Cpu × Machine → Cpu × Machine
irq_entry clobber bus g irq (c, m) =
    exec (c_function clobber (λ f. irq_dispatch bus f.vector)) (stub_at irq irq_stubs ++ irq_common)
      (deliver g none c, m)

-- An exception, from the gate to the halt.
unfoldable pub isr_entry : (Cpu → Cpu) → Entry → ℕ → Option ℕ → Cpu × Console → Cpu × Console
isr_entry clobber g vector error (c, m) =
    exec (c_function clobber exception_handler) (stub_at vector isr_stubs ++ isr_common)
      (deliver g error c, m)
