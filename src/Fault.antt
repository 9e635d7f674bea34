-- ===== src/Fault.antt =====
-- `exception_handler` of kernel/arch/x86_64/idt.c, with the frame of include/idt.h: the report on the
-- console. After it the processor is halted for good, so the result is the console's last state.
pub mod Report
mod Examples
use nadir_kernel.Base.{ℕ, zero, suc, List, [], ◌∷◌, ltb, if◌then◌else◌, codes}
use nadir_kernel.Console.{Console, console_puts, console_puthex64}
use nadir_kernel.Idt.{idt_exception_count}

pub record InterruptFrame : Type 0 where
  pub r15 : ℕ
  pub r14 : ℕ
  pub r13 : ℕ
  pub r12 : ℕ
  pub r11 : ℕ
  pub r10 : ℕ
  pub r9 : ℕ
  pub r8 : ℕ
  pub rbp : ℕ
  pub rdi : ℕ
  pub rsi : ℕ
  pub rdx : ℕ
  pub rcx : ℕ
  pub rbx : ℕ
  pub rax : ℕ
  pub vector : ℕ
  pub error : ℕ
  pub rip : ℕ
  pub cs : ℕ
  pub rflags : ℕ
  pub rsp : ℕ
  pub ss : ℕ

-- The element of a table, and an empty string behind its end.
unfoldable pub nth : ℕ → List (List ℕ) → List ℕ
nth i [] = []
nth zero (x ∷ xs) = x
nth (suc i) (x ∷ xs) = nth i xs

abbrev pub exception_names : List (List ℕ)
exception_names =
    codes "Divide Error (#DE)"
    ∷ codes "Debug Exception (#DB)"
    ∷ codes "NMI"
    ∷ codes "Breakpoint (#BP)"
    ∷ codes "Overflow (#OF)"
    ∷ codes "Bound Range (#BR)"
    ∷ codes "Invalid Opcode (#UD)"
    ∷ codes "Device Not Available (#NM)"
    ∷ codes "Double Fault (#DF)"
    ∷ codes "Coprocessor Segment Overrun"
    ∷ codes "Invalid TSS (#TS)"
    ∷ codes "Segment Not Present (#NP)"
    ∷ codes "Stack-Segment Fault (#SS)"
    ∷ codes "General Protection (#GP)"
    ∷ codes "Page Fault (#PF)"
    ∷ codes "Reserved (15)"
    ∷ codes "x87 Floating-Point (#MF)"
    ∷ codes "Alignment Check (#AC)"
    ∷ codes "Machine Check (#MC)"
    ∷ codes "SIMD Floating-Point (#XM)"
    ∷ codes "Virtualization (#VE)"
    ∷ codes "Control Protection (#CP)"
    ∷ codes "Reserved (22)"
    ∷ codes "Reserved (23)"
    ∷ codes "Reserved (24)"
    ∷ codes "Reserved (25)"
    ∷ codes "Reserved (26)"
    ∷ codes "Reserved (27)"
    ∷ codes "Hypervisor Injection (#HV)"
    ∷ codes "VMM Communication (#VC)"
    ∷ codes "Security Exception (#SX)"
    ∷ codes "Reserved (31)"
    ∷ []

-- The local variable `name`.
unfoldable pub exception_name : ℕ → List ℕ
exception_name vector =
    if ltb vector idt_exception_count then nth vector exception_names else codes "Unknown Exception"

unfoldable pub exception_handler : InterruptFrame → Console → Console
exception_handler frame s =
    let s = console_puts (codes "\n*** EXCEPTION: ") s in
    let s = console_puts (exception_name frame.vector) s in
    let s = console_puts (codes " (vector ") s in
    let s = console_puthex64 frame.vector s in
    let s = console_puts (codes ") ***\nerror: ") s in
    let s = console_puthex64 frame.error s in
    let s = console_puts (codes " rip: ") s in
    let s = console_puthex64 frame.rip s in
    let s = console_puts (codes " cs: ") s in
    let s = console_puthex64 frame.cs s in
    let s = console_puts (codes " rflags: ") s in
    let s = console_puthex64 frame.rflags s in console_puts (codes "\nSystem halted.\n") s
