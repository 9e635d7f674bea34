-- ===== src/Kmain/States.antt =====
-- The conditions on the kernel's surroundings and states that the theorems on `kmain` speak of.
use nadir_kernel.Base.{ℕ, ◌^◌, ◌≤◌, ◌<◌, ◌≡◌, not, none, ltb}
use nadir_kernel.Pmm.{visited}
use nadir_kernel.Pmm.Release.{AllEntries}
use nadir_kernel.Console.Screen.{InBounds}
use nadir_kernel.Keyboard.Typing.{IsDriver}
use nadir_kernel.Pic.Lines.{is_masked}
use nadir_kernel.Pic.Manual.{HoldsMasks}
use nadir_kernel.Irq.Dispatch.{IsWired}
use nadir_kernel.Serial.Output.{Empties}
use nadir_kernel.Kmain.{Setup, System}

-- What boot code, linker and hardware provide.
pub record IsSetup (e : Setup) : Type 0 where
  pub isr : (k : ℕ) → e.isr_stub_table k < 2 ^ 64
  pub irq : (k : ℕ) → e.irq_stub_table k < 2 ^ 64
  pub kernel_order : e.kernel_start ≤ e.kernel_end
  pub kernel_small : e.kernel_end < 2 ^ 64
  pub entries : AllEntries (visited e.memmap_count e.memmap_entries)
  pub serial : Empties e.bus e.polls
  pub masks : HoldsMasks e.bus

-- The static variables before `kmain`, as far as the boot sequence relies on them.
pub record IsCold (s : System) : Type 0 where
  pub ticks : s.machine.s_ticks ≡ 0
  pub initialized : s.machine.s_initialized ≡ 0
  pub handlers : (i : ℕ) → s.machine.irq_handlers i ≡ none
  pub bitmap : (i : ℕ) → s.pmm.bitmap i < 256

-- What holds from `sti` on: the cursor is on the screen, timer and keyboard have their handlers, the
-- driver's state is in range, and of the 16 lines exactly 0 and 1 are enabled.
pub record IsAlive (s : System) : Type 0 where
  pub cursor : InBounds s.console
  pub wired : IsWired s.machine
  pub driver : IsDriver s.machine.keyboard
  pub ticks : s.machine.s_ticks < 2 ^ 64
  pub lines : (i : ℕ) → i < 16 → is_masked i s.machine.log ≡ not (ltb i 2)
