-- ===== src/Fault/Examples.antt =====
-- The theorem on the report of an exception for a concrete frame.
use nadir_kernel.Base.{◌≡◌, [], arith}
use nadir_kernel.Console.{Console, console_puts}
use nadir_kernel.Fault.{InterruptFrame, exception_handler}
use nadir_kernel.Fault.Report.{report, Tells, exception_handler-report}

abbrev fresh : Console
fresh = record { cursor_row = 0; cursor_col = 0; vga = λ i. 0; log = [] }

-- A page fault.
abbrev page_fault : InterruptFrame
page_fault = record {
  r15 = 0;
  r14 = 0;
  r13 = 0;
  r12 = 0;
  r11 = 0;
  r10 = 0;
  r9 = 0;
  r8 = 0;
  rbp = 0;
  rdi = 0;
  rsi = 0;
  rdx = 0;
  rcx = 0;
  rbx = 0;
  rax = 0;
  vector = 14;
  error = 2;
  rip = 0x1000a4;
  cs = 0x18;
  rflags = 0x46;
  rsp = 0;
  ss = 0;
}

exception_handler-report_example :
    (exception_handler page_fault fresh ≡ console_puts (report page_fault) fresh) × Tells page_fault
exception_handler-report_example = exception_handler-report page_fault fresh (omega arith)
