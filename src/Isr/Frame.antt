-- ===== src/Isr/Frame.antt =====
-- The frame that the stubs build, against `struct interrupt_frame` of include/idt.h.
use nadir_kernel.Base.{
  ℕ, zero, suc, ◌+◌, ◌*◌, ◌/◌, ◌%◌, ◌^◌, ◌≤◌, ◌<◌, ◌≡◌, refl, ap, ◌∙◌, List, [], ◌∷◌, ◌++◌, Option,
  none, some, arith, length,
}
use mathlib.Core.Path.{subst}
use nadir_kernel.Fault.{InterruptFrame}
use nadir_kernel.Isr.{
  Reg, rax, rbx, rcx, rdx, rsi, rdi, rbp, r8, r9, r10, r11, r12, r13, r14, r15, Cpu, Entry, Instr,
  mov_rsp, call, set_reg, reg_number, push_word, step, exec, frame_at, push_error, push_context,
  deliver, c_function,
}
use nadir_kernel.Isr.Stack.{
  Holds, Stacked, push_word-Stacked, pushes, saved, save, exec-pushes, save-Saved,
}

get_word : List ℕ → ℕ → ℕ
get_word [] i = 0
get_word (w ∷ ws) zero = w
get_word (w ∷ ws) (suc i) = get_word ws i

Holds-get_word :
    (m : ℕ → ℕ) (a : ℕ) (ws : List ℕ) (i : ℕ)
    → Holds m a ws
    → i < length ws
    → m (a + 8 * i) ≡ get_word ws i
unfolding get_word
Holds-get_word m a [] i h lt = absurd (omega arith)
Holds-get_word m a (w ∷ ws) zero h lt = ap m (let e : a + 8 * zero ≡ a = omega arith in e) ∙ h.0
Holds-get_word m a (w ∷ ws) (suc i) h lt =
    ap m (let e : a + 8 * suc i ≡ a + 8 + 8 * i = omega arith in e)
    ∙ Holds-get_word m (a + 8) ws i h.1 (omega arith)

-- The frame of a program that was interrupted in the state `c`.
unfoldable pub frame_of : ℕ → ℕ → Cpu → InterruptFrame
frame_of vector error c = record {
  r15 = c.regs r15;
  r14 = c.regs r14;
  r13 = c.regs r13;
  r12 = c.regs r12;
  r11 = c.regs r11;
  r10 = c.regs r10;
  r9 = c.regs r9;
  r8 = c.regs r8;
  rbp = c.regs rbp;
  rdi = c.regs rdi;
  rsi = c.regs rsi;
  rdx = c.regs rdx;
  rcx = c.regs rcx;
  rbx = c.regs rbx;
  rax = c.regs rax;
  vector = vector;
  error = error;
  rip = c.rip;
  cs = c.cs;
  rflags = c.rflags;
  rsp = c.rsp;
  ss = c.ss;
}

-- The words that the processor pushes, and the registers in the order of the stubs.
abbrev pub context : Cpu → List ℕ
context c = c.rip ∷ c.cs ∷ c.rflags ∷ c.rsp ∷ c.ss ∷ []

abbrev pub save_order : List Reg
save_order =
    rax ∷ rbx ∷ rcx ∷ rdx ∷ rsi ∷ rdi ∷ rbp ∷ r8 ∷ r9 ∷ r10 ∷ r11 ∷ r12 ∷ r13 ∷ r14 ∷ r15 ∷ []

frame_at-frame_of :
    (m : ℕ → ℕ) (p vector error : ℕ) (c : Cpu)
    → Holds m p (saved save_order c.regs (vector ∷ error ∷ context c))
    → frame_at m p ≡ frame_of vector error c
unfolding frame_at frame_of get_word
frame_at-frame_of m p vector error c h =
    let at = λ (i : ℕ) (lt : i < 22).
      Holds-get_word m p (saved save_order c.regs (vector ∷ error ∷ context c)) i h lt in
    λ i. record {
      r15 = h.0 i;
      r14 = at 1 (omega arith) i;
      r13 = at 2 (omega arith) i;
      r12 = at 3 (omega arith) i;
      r11 = at 4 (omega arith) i;
      r10 = at 5 (omega arith) i;
      r9 = at 6 (omega arith) i;
      r8 = at 7 (omega arith) i;
      rbp = at 8 (omega arith) i;
      rdi = at 9 (omega arith) i;
      rsi = at 10 (omega arith) i;
      rdx = at 11 (omega arith) i;
      rcx = at 12 (omega arith) i;
      rbx = at 13 (omega arith) i;
      rax = at 14 (omega arith) i;
      vector = at 15 (omega arith) i;
      error = at 16 (omega arith) i;
      rip = at 17 (omega arith) i;
      cs = at 18 (omega arith) i;
      rflags = at 19 (omega arith) i;
      rsp = at 20 (omega arith) i;
      ss = at 21 (omega arith) i;
    }

-- The stack pointer before the processor pushes: at most 15 bytes lower.
abbrev pub aligned : ℕ → ℕ
aligned rsp = rsp / 16 * 16

-- The words on the stack in a handler: the context, under an error code if there is one.
abbrev pub entry_words : Option ℕ → List ℕ → List ℕ
entry_words none ws = ws
entry_words (some code) ws = code ∷ ws

-- A state in which the registers are those of the program, and the stack holds these words above it.
pub record Interrupting (ws : List ℕ) (c c' : Cpu) : Type 0 where
  pub regs_eq : c'.regs ≡ c.regs
  pub stacked : Stacked (aligned c.rsp) c.memory ws c'

pub push_word-Interrupting :
    {ws : List ℕ} {c c' : Cpu} (v : ℕ)
    → Interrupting ws c c'
    → 8 * (length ws + 1) ≤ aligned c.rsp
    → Interrupting (v ∷ ws) c (push_word v c')
push_word-Interrupting v i room = record {
  regs_eq = (unfold push_word in i.regs_eq);
  stacked = push_word-Stacked v i.stacked room;
}

-- The stack has room for a frame and the error code.
pub record HasStack (c : Cpu) : Type 0 where
  pub room : 184 ≤ aligned c.rsp
  pub fits : c.rsp < 2 ^ 64

push_context-Interrupting : (c : Cpu) → HasStack c → Interrupting (context c) c (push_context c)
unfolding push_context
push_context-Interrupting c h =
    let start : Interrupting [] c (record c { rsp = aligned c.rsp }) = record {
      regs_eq = refl;
      stacked = record {
        height = omega arith;
        fits = omega arith;
        words = tt;
        above = λ a lt. refl;
      };
    } in
    push_word-Interrupting c.rip
      (push_word-Interrupting c.cs
        (push_word-Interrupting c.rflags
          (push_word-Interrupting c.rsp (push_word-Interrupting c.ss start (omega arith))
            (omega arith))
          (omega arith))
        (omega arith))
      (omega arith)

push_error-Interrupting :
    (error : Option ℕ) (c c' : Cpu)
    → HasStack c
    → Interrupting (context c) c c'
    → Interrupting (entry_words error (context c)) c (push_error error c')
unfolding push_error
push_error-Interrupting none c c' h i = i
push_error-Interrupting (some code) c c' h i = push_word-Interrupting code i (omega arith)

pub deliver-Interrupting :
    (g : Entry) (error : Option ℕ) (c : Cpu)
    → HasStack c
    → Interrupting (entry_words error (context c)) c (deliver g error c)
unfolding deliver
deliver-Interrupting g error c h =
    let i = push_error-Interrupting error c (push_context c) h (push_context-Interrupting c h) in
    record {
      regs_eq = i.regs_eq;
      stacked = record {
        height = i.stacked.height;
        fits = i.stacked.fits;
        words = i.stacked.words;
        above = i.stacked.above;
      };
    }

-- The call of the C handler: the stack pointer is aligned, as the calling convention wants it, rdi
-- points at a frame, and the stack is still as the stub built it.
pub record Calls {M : Type 0} (clobber : Cpu → Cpu) (handler : InterruptFrame → M → M)
    (vector error : ℕ) (rest : List Instr) (m : M) (c : Cpu) (r : Cpu × M) : Type 0 where
  pub called : Cpu
  pub ready : called.rsp % 16 ≡ 0
  pub stacked :
      Stacked (aligned c.rsp) c.memory (saved save_order c.regs (vector ∷ error ∷ context c)) called
  pub result :
      r
      ≡ exec (c_function clobber handler) rest (clobber called, handler (frame_of vector error c) m)

pub exec-Calls :
    {M : Type 0} (clobber : Cpu → Cpu) (handler : InterruptFrame → M → M) (vector error : ℕ)
    (rest : List Instr) (m : M) (c c' : Cpu)
    → HasStack c
    → Interrupting (vector ∷ error ∷ context c) c c'
    → Calls clobber handler vector error rest m c (
        exec
          (c_function clobber handler)
          (pushes save_order ++ (mov_rsp rdi ∷ call ∷ rest))
          (c', m))
unfolding exec step c_function set_reg reg_number
exec-Calls clobber handler vector error rest m c c' h i =
    let s = save-Saved save_order i.stacked (omega arith) in
    let ws = vector ∷ error ∷ context c in
    let stacked : Stacked (aligned c.rsp) c.memory (saved save_order c.regs ws)
        (save save_order c') =
      subst
        (λ (g : Reg → ℕ).
          Stacked (aligned c.rsp) c.memory (saved save_order g ws) (save save_order c'))
        i.regs_eq s.stacked in
    let at_call = save save_order c' in
    let frame = frame_at-frame_of at_call.memory at_call.rsp vector error c stacked.words in
    let code = c_function clobber handler in
    record {
      called = record at_call { regs = set_reg rdi at_call.rsp at_call.regs };
      ready = omega (arith, stacked.height);
      stacked = record {
        height = stacked.height;
        fits = stacked.fits;
        words = stacked.words;
        above = stacked.above;
      };
      result =
          exec-pushes code save_order (mov_rsp rdi ∷ call ∷ rest) c' m
          ∙ ap
              (λ (f : InterruptFrame). exec code rest (
                clobber (record at_call { regs = set_reg rdi at_call.rsp at_call.regs }),
                handler f m,
              ))
              frame;
    }
