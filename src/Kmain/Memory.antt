-- ===== src/Kmain/Memory.antt =====
-- The boot sequence's part on the frame allocator and the heap.
use nadir_kernel.Base.{
  ℕ, ◌≤◌, ◌<◌, ◌≡◌, refl, ap, ◌∙◌, sym, Bool, true, not, ◌||◌, List, [], ◌∷◌, Option, some, ◌==◌,
  arith, Bool-cases, inl, inr,
}
use mathlib.Core.Path.{subst}
use mathlib.Core.Option.{some-injective}
use nadir_kernel.Io.Writes.{Extends, Extends-weaken}
use nadir_kernel.Pmm.{Pmm, pmm_init, test_bit}
use nadir_kernel.Pmm.Count.{IsCounted}
use nadir_kernel.Pmm.Init.{fixed, pmm_init_lem}
use nadir_kernel.Kmalloc.{Heap, kmalloc_init}
use nadir_kernel.Kmalloc.Runs.{Run, run, total}
use nadir_kernel.Kmalloc.Alloc.{IsHeap}
use nadir_kernel.Kmalloc.Init.{first_run, kmalloc_init-Starts}
use nadir_kernel.Console.Screen.{InBounds, screen}
use nadir_kernel.Console.Text.{type_chars}
use nadir_kernel.Pic.Manual.{off_pic}
use nadir_kernel.Irq.{pit_ticks}
use nadir_kernel.SelfTest.{self_test}
use nadir_kernel.SelfTest.Outcome.{self_test-Tested, self_test_passes}
use nadir_kernel.Kmain.{Setup, System, print, boot_memory, boot_heap, report_pmm, report_heap}
use nadir_kernel.Kmain.Print.{
  print-Shown, pmm_text, report_pmm-pmm_text, heap_text, report_heap-heap_text,
}
use nadir_kernel.Kmain.Keeps.{Keeps, crt-off_pic, Shown-Keeps}
use nadir_kernel.Kmain.States.{IsSetup}

-- The frame allocator after `pmm_init`.
abbrev pub initial_pmm : Setup → Pmm → Pmm
initial_pmm e p = pmm_init e.kernel_start e.kernel_end e.memmap_count e.memmap_entries p

pmm_started :
    (e : Setup) (p : Pmm)
    → IsSetup e
    → ((i : ℕ) → p.bitmap i < 256)
    → let q = initial_pmm e p in IsCounted q × (test_bit q.bitmap 0 ≡ true)
pmm_started e p i bytes =
    let (counted, _, bit) =
      pmm_init_lem e.kernel_start e.kernel_end e.memmap_count e.memmap_entries p 0 i.kernel_order
        i.kernel_small bytes i.entries (omega arith) in
    let low : fixed e.kernel_start e.kernel_end 0 ≡ true = (unfold fixed in refl) in
    (counted, bit ∙ rw low refl)

-- What the part on the heap leaves.
pub record Stocked (t : ℕ) (s : System) (r : Option System) : Type 0 where
  pub after : System
  pub result : r ≡ some after
  pub machine_eq : after.machine ≡ record s.machine { log = after.machine.log }
  pub extends : Extends off_pic s.machine.log after.machine.log
  pub bounds : InBounds after.console
  pub idt_eq : after.idt ≡ s.idt
  pub frames : IsCounted after.pmm
  pub n : ℕ
  pub free : List Run
  pub well : IsHeap after.heap free [] n
  pub ok : Bool
  pub passes : 4 ≤ n → ok ≡ true
  pub screen_eq : screen after.console ≡ type_chars (heap_text t ok after.heap) (screen s.console)

-- A first run of at least four frames passes the test.
first_run_passes :
    (addr n m : ℕ) (h : Heap) (ok : Bool) (h' : Heap)
    → IsHeap h (first_run addr n) [] m
    → self_test h ≡ some (ok, h')
    → m ≡ n
    → 4 ≤ n
    → ok ≡ true
first_run_passes addr n m h ok h' i e same enough = elim (Bool-cases (addr == 0)) [
  | inl none' ↦
      let no_run : first_run addr n ≡ [] = (unfold first_run in rw none') in
      let empty = subst (λ (l : List Run). IsHeap h l [] m) no_run i in
      let none_left : 0 ≡ m = (unfold total in empty.all_frames) in
      absurd (omega (arith, none_left, same, enough))
  | inr some' ↦
      let one : first_run addr n ≡ run addr n ∷ [] = (unfold first_run in rw some') in
      let (h2, pass) =
        self_test_passes addr n h (subst (λ (l : List Run). IsHeap h l [] m) one i) enough in
      ap (λ (r : Bool × Heap). r.0) (some-injective _ _ (sym e ∙ pass))
]

pub boot_heap-Stocked :
    (t : ℕ) (s : System)
    → s.machine.s_ticks ≡ t
    → IsCounted s.pmm
    → test_bit s.pmm.bitmap 0 ≡ true
    → InBounds s.console
    → Stocked t s (boot_heap s)
unfolding boot_heap pit_ticks
boot_heap-Stocked ticks s start counted zero' v =
    let (well, _, _, frames, _, _) = kmalloc_init-Starts s.pmm s.heap counted zero' in
    let h = (kmalloc_init s.pmm s.heap).0 in
    let t = self_test-Tested h well in
    let ok = not (t.a == 0 || t.b == 0 || t.c == 0) in
    let s1 = record s { pmm = (kmalloc_init s.pmm s.heap).1; heap = t.heap } in
    let p =
      print-Shown (report_heap s.machine.s_ticks ok t.heap) (heap_text s.machine.s_ticks ok t.heap)
        s1 (λ c. report_heap-heap_text s.machine.s_ticks ok t.heap c) v in
    let s2 = print (report_heap s.machine.s_ticks ok t.heap) s1 in
    record {
      after = s2;
      result = rw t.result_eq refl;
      machine_eq = p.machine_eq;
      extends = Extends-weaken crt-off_pic p.extends;
      bounds = p.bounds;
      idt_eq = p.idt_eq;
      frames = rw p.pmm_eq frames;
      n = h.g_free_frames;
      free = t.free';
      well = rw p.heap_eq t.well;
      ok = ok;
      passes = λ enough.
          first_run_passes h.g_free_list h.g_free_frames h.g_free_frames h ok t.heap well
            t.result_eq refl enough;
      screen_eq =
          subst
            (λ (u : ℕ). screen s2.console ≡ type_chars (heap_text u ok s2.heap) (screen s.console))
            start (rw p.heap_eq p.screen_eq);
    }

-- What the part on the frame allocator leaves.
pub record Mapped (e : Setup) (t : ℕ) (s s' : System) : Type 0 where
  pub keeps :
      Keeps
        (type_chars (pmm_text t e.memmap_count (initial_pmm e s.pmm)))
        (record s { pmm = s'.pmm })
        s'
  pub frames : IsCounted s'.pmm
  pub zero_used : test_bit s'.pmm.bitmap 0 ≡ true

pub boot_memory-Mapped :
    (e : Setup) (t : ℕ) (s : System)
    → s.machine.s_ticks ≡ t
    → IsSetup e
    → ((i : ℕ) → s.pmm.bitmap i < 256)
    → InBounds s.console
    → Mapped e t s (boot_memory e s)
unfolding boot_memory pit_ticks
boot_memory-Mapped e t s start i bytes v =
    let q = initial_pmm e s.pmm in
    let s1 = record s { pmm = q } in
    let p =
      print-Shown (report_pmm s.machine.s_ticks e.memmap_count q)
        (pmm_text s.machine.s_ticks e.memmap_count q) s1
        (λ c. report_pmm-pmm_text s.machine.s_ticks e.memmap_count q c) v in
    let (counted, zero') = pmm_started e s.pmm i bytes in
    let k = Shown-Keeps p in
    record {
      keeps = record {
        machine_eq = k.machine_eq;
        idt_eq = k.idt_eq;
        pmm_eq = refl;
        heap_eq = k.heap_eq;
        screen_eq =
            subst
              (λ (u : ℕ).
                screen (boot_memory e s).console
                ≡ type_chars (pmm_text u e.memmap_count q) (screen s.console))
              start k.screen_eq;
        bounds = k.bounds;
        extends = k.extends;
      };
      frames = rw p.pmm_eq counted;
      zero_used = rw p.pmm_eq zero';
    }
