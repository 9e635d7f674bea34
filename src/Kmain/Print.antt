-- ===== src/Kmain/Print.antt =====
-- What a print on the console and a text on the serial line leave of the kernel's state.
use Prim.Native.String.{String}
use mathlib.Core.Path.{subst}
use nadir_kernel.Base.{
  ℕ, ◌/◌, ◌%◌, ◌≡◌, refl, sym, fun_ext, Bool, true, false, List, [], ◌∷◌, ◌++◌, Option, some,
  if◌then◌else◌, codes, to_bytes, sub64,
}
use nadir_kernel.Io.{Log}
use nadir_kernel.Io.Writes.{Extends, same, Transmits, idle}
use nadir_kernel.Pmm.{Pmm, pmm_usable_count, pmm_total_count, pmm_free_count}
use nadir_kernel.Kmalloc.{Heap, kmalloc_free_frames, kmalloc_used_frames}
use nadir_kernel.Console.{Console, console_puts}
use nadir_kernel.Console.Screen.{InBounds, screen}
use nadir_kernel.Console.Text.{type_chars, console_puts-append, console_puts-Printed}
use nadir_kernel.Console.Hex.{hex_text, console_puthex64-console_puts}
use nadir_kernel.Console.Ports.{is_crt, console_puts-Extends}
use nadir_kernel.Klog.{klog, klog_begin, klog_str, klog_hex64, klog_end, seconds_digits}
use nadir_kernel.Klog.Decimal.{klog_dec-console_puts}
use nadir_kernel.Klog.Stamp.{line_start, klog-console_puts, klog_prefix-line_start}
use nadir_kernel.Irq.{pit_ticks}
use nadir_kernel.Serial.Output.{Empties, is_com_data, serial_puts-Sent}
use nadir_kernel.Kmain.{
  Setup, System, set_log, print, line, mirror, report_pmm, report_heap, report_uptime, proof_value,
}

-- `text` was typed on the screen, with writes to the display's ports only; the rest is as it was.
pub record Shown (text : List ℕ) (s s' : System) : Type 0 where
  pub machine_eq : s'.machine ≡ record s.machine { log = s'.machine.log }
  pub idt_eq : s'.idt ≡ s.idt
  pub pmm_eq : s'.pmm ≡ s.pmm
  pub heap_eq : s'.heap ≡ s.heap
  pub screen_eq : screen s'.console ≡ type_chars text (screen s.console)
  pub bounds : InBounds s'.console
  pub extends : Extends is_crt s.machine.log s'.machine.log

puts-Shown :
    (text : List ℕ) (s : System) → InBounds s.console → Shown text s (print (console_puts text) s)
unfolding print
puts-Shown text s v =
    let c = record s.console { log = s.machine.log } in
    let p = console_puts-Printed text c (record { row = v.row; col = v.col }) in
    record {
      machine_eq = refl;
      idt_eq = refl;
      pmm_eq = refl;
      heap_eq = refl;
      screen_eq = p.shown;
      bounds = p.bounds;
      extends = console_puts-Extends text c;
    }

pub print-Shown :
    (f : Console → Console) (text : List ℕ) (s : System)
    → ((c : Console) → f c ≡ console_puts text c)
    → InBounds s.console
    → Shown text s (print f s)
print-Shown f text s h v =
    subst (λ (g : Console → Console). Shown text s (print g s)) (sym (fun_ext h))
      (puts-Shown text s v)

-- The characters of a log line.
abbrev pub line_text : ℕ → String → String → List ℕ
line_text ticks subsystem msg = line_start ticks (codes subsystem) ++ codes msg ++ (10 ∷ [])

pub line-Shown :
    (subsystem msg : String) (s : System)
    → InBounds s.console
    → Shown (line_text s.machine.s_ticks subsystem msg) s (line subsystem msg s)
unfolding line pit_ticks
line-Shown subsystem msg s v =
    print-Shown (klog s.machine.s_ticks (codes subsystem) (codes msg)) _ s
      (λ c. klog-console_puts s.machine.s_ticks (codes subsystem) (codes msg) c) v

-- The text went out on the serial line if there is one; the rest is as it was.
pub record Mirrored (present : Bool) (text : List ℕ) (s : System) (r : Option System) : Type 0 where
  pub after : Log
  pub result : r ≡ some (set_log after s)
  pub transmits : Transmits s.machine.log (if present then to_bytes text else []) after
  pub only : Extends is_com_data s.machine.log after

pub mirror-Mirrored :
    (e : Setup) (present : Bool) (text : List ℕ) (s : System)
    → Empties e.bus e.polls
    → Mirrored present text s (mirror e present text s)
unfolding mirror
mirror-Mirrored e true text s h =
    let sent = serial_puts-Sent e.polls e.bus (some text) s.machine.log h in
    record {
      after = sent.after;
      result = rw sent.result refl;
      transmits = sent.transmits;
      only = sent.only;
    }
mirror-Mirrored e false text s h = record {
  after = s.machine.log;
  result = refl;
  transmits = idle;
  only = same;
}

pub pmm_text : ℕ → ℕ → Pmm → List ℕ
pmm_text ticks count p =
    line_start ticks (codes "pmm")
    ++ codes "E820 entries "
    ++ seconds_digits count
    ++ codes ", usable frames "
    ++ seconds_digits (pmm_usable_count p)
    ++ codes " / total frames "
    ++ seconds_digits pmm_total_count
    ++ codes ", free frames "
    ++ seconds_digits (pmm_free_count p)
    ++ codes ", reserved "
    ++ seconds_digits (sub64 (pmm_usable_count p) (pmm_free_count p))
    ++ (10 ∷ [])

pub report_pmm-pmm_text :
    (ticks count : ℕ) (p : Pmm) (c : Console)
    → report_pmm ticks count p c ≡ console_puts (pmm_text ticks count p) c
unfolding report_pmm pmm_text klog_begin klog_str klog_end console_puts
report_pmm-pmm_text ticks count p c =
    simp (klog_prefix-line_start, klog_dec-console_puts, console_puts-append) refl

pub heap_text : ℕ → Bool → Heap → List ℕ
heap_text ticks ok h =
    line_start ticks (codes "kmalloc")
    ++ codes "self-test "
    ++ (if ok then codes "ok" else codes "FAILED")
    ++ codes ", free frames "
    ++ seconds_digits (kmalloc_free_frames h)
    ++ codes ", used frames "
    ++ seconds_digits (kmalloc_used_frames h)
    ++ (10 ∷ [])

pub report_heap-heap_text :
    (ticks : ℕ) (ok : Bool) (h : Heap) (c : Console)
    → report_heap ticks ok h c ≡ console_puts (heap_text ticks ok h) c
unfolding report_heap heap_text klog_begin klog_str klog_end console_puts
report_heap-heap_text ticks ok h c =
    simp (klog_prefix-line_start, klog_dec-console_puts, console_puts-append) refl

unfoldable pub uptime_text : ℕ → ℕ → List ℕ
uptime_text ticks now =
    line_start ticks (codes "nadir")
    ++ codes "uptime "
    ++ seconds_digits (now / 100)
    ++ codes "."
    ++ seconds_digits (now / 10 % 10)
    ++ codes "s (ticks "
    ++ hex_text now
    ++ codes ")"
    ++ (10 ∷ [])

pub report_uptime-uptime_text :
    (ticks now : ℕ) (c : Console)
    → report_uptime ticks now c ≡ console_puts (uptime_text ticks now) c
unfolding report_uptime uptime_text klog_begin klog_str klog_hex64 klog_end console_puts
report_uptime-uptime_text ticks now c =
    simp
      (
        klog_prefix-line_start, klog_dec-console_puts, console_puthex64-console_puts,
        console_puts-append,
      )
      refl

pub proof_text : ℕ → List ℕ
proof_text ticks =
    line_start ticks (codes "nadir")
    ++ codes "64-bit proof value: "
    ++ hex_text proof_value
    ++ (10 ∷ [])

pub proof-proof_text :
    (ticks : ℕ) (c : Console)
    → klog_end (
        klog_hex64 proof_value
          (klog_str (codes "64-bit proof value: ") (klog_begin ticks (codes "nadir") c)))
      ≡ console_puts (proof_text ticks) c
unfolding proof_text klog_begin klog_str klog_hex64 klog_end console_puts
proof-proof_text ticks c =
    simp (klog_prefix-line_start, console_puthex64-console_puts, console_puts-append) refl
