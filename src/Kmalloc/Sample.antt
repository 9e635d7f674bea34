-- ===== src/Kmalloc/Sample.antt =====
-- A small heap for the tests.
use nadir_kernel.Base.{refl, [], ◌∷◌, arith}
use nadir_kernel.Kmalloc.{
  Heap, frames_for, kmalloc, kfree, first_heap, walk, carve, split, stamp, store, read_link,
  write_link, give_back,
}
use nadir_kernel.Kmalloc.Runs.{Run, run, held, total, hits-le}
use nadir_kernel.Kmalloc.Alloc.{IsHeap}

abbrev pub blank : Heap
blank = record { memory = λ x. 0; g_free_list = 0; g_free_frames = 0; g_used_frames = 0 }

abbrev pub region : Run
region = run 0x10_0000 8

-- Eight frames in one free run.
unfoldable pub fresh : Heap
unfolding first_heap frames_for kmalloc walk carve split stamp store read_link write_link kfree
    give_back
fresh = first_heap 0x10_0000 8 blank

pub fresh-IsHeap : IsHeap fresh (region ∷ []) [] 8
unfolding fresh held total
fresh-IsHeap = record {
  chain = (refl, refl, refl);
  headers = tt;
  free_runs = omega arith;
  used_runs = tt;
  apart = λ x. omega (arith, hits-le x region);
  free_frames = refl;
  used_frames = refl;
  all_frames = refl;
  small = omega arith;
}
