-- ===== src/Kmalloc.antt =====
-- kernel/mm/kmalloc.c with include/kmalloc.h: the page-granular first-fit heap. Memory is a function
-- from an address to the 64-bit word there. Both structures overlay a run's first 16 bytes:
-- `next` and `magic` are the word at the run's address, `frames` is the word 8 bytes on.
pub mod Runs
pub mod Chain
pub mod Carve
pub mod Place
pub mod Walk
pub mod Alloc
pub mod Free
pub mod Oversize
pub mod Pull
pub mod Init
pub mod Churn
pub mod Payload
pub mod Traces
pub mod Sample
mod Examples
use nadir_kernel.Base.{
  ℕ, zero, suc, ◌+◌, ◌*◌, ◌/◌, Bool, not, ◌&&◌, Option, none, some, ltb, leb, ◌==◌, if◌then◌else◌,
  update, add64, sub64,
}
use nadir_kernel.Pmm.{Pmm, pmm_alloc_frame, pmm_frame_size}

abbrev pub kmalloc_magic : ℕ
kmalloc_magic = 0x4e41_4449_524d_4148

abbrev pub kmalloc_init_frames : ℕ
kmalloc_init_frames = 64

-- `sizeof(struct kmalloc_header)`
abbrev pub header_size : ℕ
header_size = 16

abbrev pub Memory : Type 0
Memory = ℕ → ℕ

-- The static variables, and the memory that the runs lie in: the 64-bit word at each address divisible by
-- 8. The functions read and write headers and links there; no other address stands for a word.
pub record Heap : Type 0 where
  pub memory : Memory
  pub g_free_list : ℕ
  pub g_free_frames : ℕ
  pub g_used_frames : ℕ

-- The address of the field `frames`, of a header and of a free run alike.
abbrev pub frames_at : ℕ → ℕ
frames_at run = add64 run 8

unfoldable pub frames_for : ℕ → ℕ
frames_for size =
    let bytes = add64 (if size == 0 then 1 else size) header_size in
    sub64 (add64 bytes pmm_frame_size) 1 / pmm_frame_size

-- What the loop of `kmalloc_init` leaves: `addr`, `i` and the frame allocator. The arguments are the
-- rounds left, `i`, `addr` and the frame allocator.
unfoldable pub init_loop : ℕ → ℕ → ℕ → Pmm → ℕ × ℕ × Pmm
init_loop zero i addr p = (addr, i, p)
init_loop (suc n) i addr p =
    let (next, q) = pmm_alloc_frame p in
    let rest = init_loop n (i + 1) (if addr == 0 then next else addr) q in
    if next == 0
    then (addr, i, q)
    else if not (addr == 0) && not (next == add64 addr (i * pmm_frame_size))
    then (addr, i, q)
    else rest

-- The lines of `kmalloc_init` around its loop: the static variables, and the free run if there is one.
unfoldable pub first_heap : ℕ → ℕ → Heap → Heap
first_heap addr i h =
    if addr == 0
    then record h { g_free_list = 0; g_free_frames = 0; g_used_frames = 0 }
    else record {
      memory = update (update h.memory addr 0) (frames_at addr) i;
      g_free_list = addr;
      g_free_frames = i;
      g_used_frames = 0;
    }

unfoldable pub kmalloc_init : Pmm → Heap → Heap × Pmm
kmalloc_init p h =
    let (addr, i, q) = init_loop kmalloc_init_frames 0 0 p in (first_heap addr i h, q)

-- `struct kmalloc_free **link`: the list head, or the field `next` of a free run.
pub data Link : Type 0 where
  root : Link
  next_of : ℕ → Link

-- `*link`
unfoldable pub read_link : Link → Heap → ℕ
read_link root h = h.g_free_list
read_link (next_of run) h = h.memory run

-- `*link = run`
unfoldable pub write_link : Link → ℕ → Heap → Heap
write_link root run h = record h { g_free_list = run }
write_link (next_of prev) run h = record h { memory = update h.memory prev run }

unfoldable pub store : ℕ → ℕ → Heap → Heap
store addr word h = record h { memory = update h.memory addr word }

-- The tail replaces the run in the free list.
unfoldable pub split : ℕ → Link → ℕ → Heap → Heap
split need link run h =
    let tail = add64 run (need * pmm_frame_size) in
    let h = store tail (h.memory run) h in
    let h = store (frames_at tail) (sub64 (h.memory (frames_at run)) need) h in
    write_link link tail h

-- The last lines of the loop's body: counters, header and the address of the payload.
unfoldable pub stamp : ℕ → ℕ → Heap → ℕ × Heap
stamp run run_frames h =
    let h = record h { g_free_frames = sub64 h.g_free_frames run_frames } in
    let h = store (frames_at run) run_frames (store run kmalloc_magic h) in
    (add64 run header_size, record h { g_used_frames = add64 h.g_used_frames run_frames })

-- The body of the `if` in the loop of `kmalloc`: `run` fits.
unfoldable pub carve : ℕ → Link → ℕ → Heap → ℕ × Heap
carve need link run h =
    let run_frames = h.memory (frames_at run) in
    if ltb need run_frames
    then stamp run need (split need link run h)
    else stamp run run_frames (write_link link (h.memory run) h)

-- The loop of `kmalloc`, on fuel. 0 is NULL.
unfoldable pub walk : ℕ → ℕ → Link → Heap → Option (ℕ × Heap)
walk zero need link h = none
walk (suc fuel) need link h =
    let run = read_link link h in
    let rest = walk fuel need (next_of run) h in
    if run == 0
    then some (0, h)
    else if leb need (h.memory (frames_at run))
    then some (carve need link run h)
    else rest

-- One more than the frames of the window.
abbrev pub walk_fuel : ℕ
walk_fuel = 262_145

unfoldable pub kmalloc : ℕ → Heap → Option (ℕ × Heap)
kmalloc size h = walk walk_fuel (frames_for size) root h

-- The lines of `kfree` below its checks.
unfoldable pub give_back : ℕ → Heap → Heap
give_back hdr h =
    let h = store hdr 0 h in
    let h = store hdr h.g_free_list h in
    let h = store (frames_at hdr) (h.memory (frames_at hdr)) h in
    record h {
      g_free_list = hdr;
      g_free_frames = add64 h.g_free_frames (h.memory (frames_at hdr));
      g_used_frames = sub64 h.g_used_frames (h.memory (frames_at hdr));
    }

unfoldable pub kfree : ℕ → Heap → Heap
kfree ptr h =
    let hdr = sub64 ptr header_size in
    if ptr == 0
    then h
    else if not (h.memory hdr == kmalloc_magic)
    then h
    else if h.memory (frames_at hdr) == 0
    then h
    else give_back hdr h

abbrev pub kmalloc_free_frames : Heap → ℕ
kmalloc_free_frames h = h.g_free_frames

abbrev pub kmalloc_used_frames : Heap → ℕ
kmalloc_used_frames h = h.g_used_frames
