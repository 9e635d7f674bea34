-- ===== src/Idt.antt =====
-- kernel/arch/x86_64/idt.c with include/idt.h: the gates of the interrupt table. The stub addresses of
-- isr.asm and the address of the table itself are arguments.
pub mod Gates
mod Examples
use nadir_kernel.Base.{ℕ, zero, suc, ◌+◌, ◌-◌, ◌*◌, ◌/◌, ◌%◌, ◌^◌, ◌==◌, if◌then◌else◌, update}

abbrev pub idt_exception_count : ℕ
idt_exception_count = 32

abbrev pub idt_irq_base : ℕ
idt_irq_base = 32

abbrev pub idt_irq_count : ℕ
idt_irq_count = 16

abbrev pub idt_flag_present_int : ℕ
idt_flag_present_int = 0x8e

abbrev pub kernel_cs : ℕ
kernel_cs = 0x18

pub record IdtEntry : Type 0 where
  pub offset_low : ℕ
  pub selector : ℕ
  pub ist : ℕ
  pub type_attr : ℕ
  pub offset_mid : ℕ
  pub offset_high : ℕ
  pub reserved : ℕ

-- The table and the register image that `lidt` loads.
pub record Idt : Type 0 where
  pub idt : ℕ → IdtEntry
  pub limit : ℕ
  pub base : ℕ

unfoldable pub idt_set_gate : ℕ → ℕ → ℕ → ℕ → ℕ → Idt → Idt
idt_set_gate vector handler selector ist flags t = record t {
  idt = update t.idt vector (record {
    offset_low = handler % 2 ^ 16;
    selector = selector;
    ist = ist % 8;
    type_attr = flags;
    offset_mid = handler / 2 ^ 16 % 2 ^ 16;
    offset_high = handler / 2 ^ 32 % 2 ^ 32;
    reserved = 0;
  });
}

-- The loops of `idt_init` and `idt_install_irqs`: rounds left, first vector, stubs and index.
unfoldable pub set_gates : ℕ → ℕ → (ℕ → ℕ) → ℕ → Idt → Idt
set_gates zero first_vector stubs i t = t
set_gates (suc n) first_vector stubs i t =
    set_gates n first_vector stubs (i + 1)
      (idt_set_gate ((first_vector + i) % 256) (stubs i) kernel_cs 0 idt_flag_present_int t)

unfoldable pub idt_init : (ℕ → ℕ) → ℕ → Idt → Idt
idt_init isr_stub_table address t = record (set_gates idt_exception_count 0 isr_stub_table 0 t) {
  limit = 256 * 16 - 1;
  base = address;
}

unfoldable pub idt_install_irqs : (ℕ → ℕ) → Idt → Idt
idt_install_irqs irq_stub_table t = set_gates idt_irq_count idt_irq_base irq_stub_table 0 t
