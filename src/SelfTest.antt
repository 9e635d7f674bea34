-- ===== src/SelfTest.antt =====
-- The self-test of the heap in `kmain`, kernel/core/kmain.c: three blocks, writes to two of them, and
-- the calls of `kfree`. The two loops are functions of the rounds left and the index.
pub mod Bytes
pub mod Blocks
pub mod Outcome
use nadir_kernel.Base.{
  ℕ, zero, suc, ◌+◌, ◌%◌, Bool, true, false, not, ◌&&◌, ◌||◌, Option, none, some, ◌>>=◌, ◌==◌,
  if◌then◌else◌, add64,
}
use nadir_kernel.Base.Bytes.{put_byte, get_byte}
use nadir_kernel.Kmalloc.{Heap, kmalloc, kfree}

-- `p[i] = v`
unfoldable pub set_elem : ℕ → ℕ → ℕ → Heap → Heap
set_elem p i v h = record h { memory = put_byte (add64 p i) v h.memory }

-- `p[i]`
unfoldable pub get_elem : ℕ → ℕ → Heap → ℕ
get_elem p i h = get_byte (add64 p i) h.memory

unfoldable pub fill : ℕ → ℕ → ℕ → Heap → Heap
fill zero i a h = h
fill (suc n) i a h = fill n (i + 1) a (set_elem a i i h)

unfoldable pub check : ℕ → ℕ → ℕ → Heap → Bool → Bool
check zero i a h ok = ok
check (suc n) i a h ok = check n (i + 1) a h (if not (get_elem a i h == i % 256) then false else ok)

-- The branch for three blocks: `ok`, and the heap that the writes leave.
unfoldable pub exercise : ℕ → ℕ → Heap → Bool × Heap
exercise a b h =
    let h = fill 100 0 a h in
    let ok = check 100 0 a h true in
    let h = set_elem b 4999 0x55 (set_elem b 0 0xaa h) in
    (if not (get_elem b 0 h == 0xaa) || not (get_elem b 4999 h == 0x55) then false else ok, h)

-- The `if` on the three pointers.
unfoldable pub try_blocks : ℕ → ℕ → ℕ → Heap → Bool × Heap
try_blocks a b c h = if a == 0 || b == 0 || c == 0 then (false, h) else exercise a b h

unfoldable pub free_blocks : ℕ → ℕ → ℕ → Heap → Heap
free_blocks a b c h = kfree 0 (kfree c (kfree b (kfree a h)))

-- `ok`, and the heap after the four calls of `kfree`.
unfoldable pub self_test : Heap → Option (Bool × Heap)
self_test h = kmalloc 100 h >>= λ (a, h). kmalloc 5000 h >>= λ (b, h).
    kmalloc 1 h >>= λ (c, h). let (ok, h) = try_blocks a b c h in some (ok, free_blocks a b c h)
