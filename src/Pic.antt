-- ===== src/Pic.antt =====
-- kernel/arch/x86_64/pic.c with include/pic.h: the two 8259 interrupt controllers, over the port log.
pub mod Lines
pub mod Manual
mod Examples
use nadir_kernel.Base.{ℕ, ◌+◌, ◌-◌, ◌%◌, Bool, ltb, leb, if◌then◌else◌}
use nadir_kernel.Base.Bits.{set_flag, clear_flag}
use nadir_kernel.Io.{Log, Bus, inb, outb, io_wait}

abbrev pub pic1_cmd : ℕ
pic1_cmd = 0x20

abbrev pub pic1_data : ℕ
pic1_data = 0x21

abbrev pub pic2_cmd : ℕ
pic2_cmd = 0xa0

abbrev pub pic2_data : ℕ
pic2_data = 0xa1

abbrev pub pic_eoi_command : ℕ
pic_eoi_command = 0x20

abbrev pub pic_irq0_vector : ℕ
pic_irq0_vector = 0x20

abbrev pub pic_irq8_vector : ℕ
pic_irq8_vector = 0x28

abbrev pub pic_irq_count : ℕ
pic_irq_count = 16

abbrev pub pic_icw1_init : ℕ
pic_icw1_init = 0x11

abbrev pub pic_icw3_master_slave_line : ℕ
pic_icw3_master_slave_line = 0x04

abbrev pub pic_icw3_slave_id : ℕ
pic_icw3_slave_id = 0x02

abbrev pub pic_icw4_8086 : ℕ
pic_icw4_8086 = 0x01

-- `outb` followed by `io_wait`
unfoldable pub outb_slow : ℕ → ℕ → Log → Log
outb_slow port value log = io_wait (outb port value log)

unfoldable pub pic_remap : Log → Log
pic_remap log =
    let log = outb_slow pic1_cmd pic_icw1_init log in
    let log = outb_slow pic2_cmd pic_icw1_init log in
    let log = outb_slow pic1_data pic_irq0_vector log in
    let log = outb_slow pic2_data pic_irq8_vector log in
    let log = outb_slow pic1_data pic_icw3_master_slave_line log in
    let log = outb_slow pic2_data pic_icw3_slave_id log in
    let log = outb_slow pic1_data pic_icw4_8086 log in
    let log = outb_slow pic2_data pic_icw4_8086 log in
    let log = outb_slow pic1_data 0xff log in outb_slow pic2_data 0xff log

unfoldable pub pic_eoi : ℕ → Log → Log
pic_eoi irq log =
    if leb pic_irq_count irq
    then log
    else outb pic1_cmd pic_eoi_command
        (if leb 8 irq then outb pic2_cmd pic_eoi_command log else log)

-- The port that holds the mask of a line.
abbrev pub mask_port : ℕ → ℕ
mask_port irq = if ltb irq 8 then pic1_data else pic2_data

unfoldable pub pic_mask : Bus → ℕ → Log → Log
pic_mask bus irq log =
    if leb pic_irq_count irq
    then log
    else let (value, log') = inb bus (mask_port irq) log in
      outb (mask_port irq) (set_flag value (irq % 8)) log'

unfoldable pub pic_unmask : Bus → ℕ → Log → Log
pic_unmask bus irq log =
    if leb pic_irq_count irq
    then log
    else let (value, log') = inb bus (mask_port irq) log in
      outb (mask_port irq) (clear_flag value (irq % 8)) log'
