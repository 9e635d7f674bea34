-- ===== src/Idt/Examples.antt =====
-- The theorem on the gates for stubs at concrete addresses.
use nadir_kernel.Base.{ℕ, arith}
use nadir_kernel.Idt.{Idt, idt_init, idt_install_irqs}
use nadir_kernel.Idt.Gates.{Installed, idt_install_irqs-idt_init}

abbrev stubs : ℕ → ℕ
stubs k = 0xffff800000100000

-- A table in which no gate is present.
abbrev absent : Idt
absent = record {
  idt = λ v. record {
    offset_low = 0;
    selector = 0;
    ist = 0;
    type_attr = 0;
    offset_mid = 0;
    offset_high = 0;
    reserved = 0;
  };
  limit = 0;
  base = 0;
}

idt_install_irqs-idt_init_example :
    Installed stubs stubs absent (idt_install_irqs stubs (idt_init stubs 0x200000 absent))
idt_install_irqs-idt_init_example =
    idt_install_irqs-idt_init stubs stubs 0x200000 absent (λ k. omega arith) (λ k. omega arith)
