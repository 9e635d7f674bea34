-- ===== src/Pmm/Examples.antt =====
-- The theorems on the frame allocator at a machine with three usable frames above the low megabyte.
use nadir_kernel.Base.{
  ℕ, ◌+◌, ◌/◌, ◌≤◌, ◌≡◌, refl, false, not, ◌&&◌, ◌||◌, some, arith, ◌==◌, if◌then◌else◌,
}
use nadir_kernel.Pmm.Sample.{
  bss, table, booted, visited_two, booted-IsCounted, some_free, start-IsSafe, taken, start-taken,
}
use nadir_kernel.Pmm.{pmm_init, pmm_alloc_frame, pmm_free_frame, test_bit, visited, reserve_range}
use nadir_kernel.Pmm.Count.{IsCounted}
use nadir_kernel.Pmm.Ranges.{Reserves, reserves, reserve_range-Reserves}
use nadir_kernel.Pmm.Release.{covers, any}
use nadir_kernel.Pmm.Init.{fixed, carves, pmm_init_lem, partial_frame-free}
use nadir_kernel.Pmm.Alloc.{Hands, frees, pmm_alloc_frame-Hands, pmm_free_frame_lem}
use nadir_kernel.Pmm.Ledger.{IsSafe, Reach-IsSafe}

-- The second frame is free although the ACPI entry holds its first half.
first_three : (pmm_alloc_frame booted).0 ≡ 0x10_0000
unfolding booted
first_three = refl

pmm_init_lem_example :
    IsCounted booted
    × (booted.g_free ≤ booted.g_usable)
    × (test_bit booted.bitmap 257 ≡ (
        fixed 0x1_0000 0x2_0000 257
        || (any (λ e. carves e 257) (visited 2 (some table))
            || not (any (λ e. covers e 257) (visited 2 (some table))))))
unfolding booted
pmm_init_lem_example =
    pmm_init_lem 0x1_0000 0x2_0000 2 (some table) bss 257 (omega arith) (omega arith)
      (λ i. omega arith) visited_two (omega arith)

partial_frame-free_example :
    test_bit (pmm_init 0x1_0000 0x2_0000 2 (some table) bss).bitmap 257 ≡ false
unfolding covers
partial_frame-free_example =
    partial_frame-free 0x1_0000 0x2_0000 257 table bss (omega arith) (omega arith)
      (λ i. omega arith) (omega arith) refl (omega arith) (omega arith) (omega arith) (omega arith)

reserve_range-Reserves_example :
    Reserves booted (reserves 0x10_0800 0x1800) (reserve_range 0x10_0800 0x1800 booted)
reserve_range-Reserves_example =
    reserve_range-Reserves 0x10_0800 0x1800 booted booted-IsCounted (omega arith)

pmm_alloc_frame-Hands_example : (g : ℕ) × Hands booted g (pmm_alloc_frame booted)
pmm_alloc_frame-Hands_example = pmm_alloc_frame-Hands booted booted-IsCounted some_free

pmm_free_frame_lem_example :
    let q = pmm_free_frame 0x20_0000 booted in
    IsCounted q
    × (q.g_free ≡ booted.g_free + (if frees booted 0x20_0000 then 1 else 0))
    × (q.g_usable ≡ booted.g_usable)
    × ((h : ℕ)
        → test_bit q.bitmap h
          ≡ (not (frees booted 0x20_0000 && 0x20_0000 / 4096 == h) && test_bit booted.bitmap h))
pmm_free_frame_lem_example = pmm_free_frame_lem 0x20_0000 booted booted-IsCounted

Reach-IsSafe_example : IsSafe 3 taken
Reach-IsSafe_example = Reach-IsSafe start-IsSafe start-taken
