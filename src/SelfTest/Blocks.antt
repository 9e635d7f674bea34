-- ===== src/SelfTest/Blocks.antt =====
-- Blocks that may not be there: a pointer is null, or the address behind the header of a run in use.
use nadir_kernel.Base.{
  ℕ, zero, suc, ◌+◌, ◌*◌, ◌≤◌, ◌<◌, ◌≡◌, ◌≢◌, refl, ap, sym, List, [], ◌∷◌, ◌++◌, Option, none,
  some, arith, add64,
}
use mathlib.Core.Path.{subst}
use nadir_kernel.Base.Bytes.{put_byte, with_byte, word_at}
use nadir_kernel.Kmalloc.{Heap, store, frames_for, kmalloc, kfree}
use nadir_kernel.Kmalloc.Runs.{Run, run, IsRun, hits, held, first_fit}
use nadir_kernel.Kmalloc.Alloc.{IsHeap, Allocates, max_size, kmalloc-Allocates}
use nadir_kernel.Kmalloc.Free.{Removes, first, later, held-Removes, AllRuns-Removes, kfree_lem}
use nadir_kernel.Kmalloc.Payload.{IsPayload, store-IsHeap}
use nadir_kernel.SelfTest.{set_elem, fill, exercise}

-- `p` is null and `rest` is `used`, or `p` is a block of `need` frames, and `rest` are the others.
pub data Drops (need p : ℕ) (used rest : List Run) : Type 0 where
  nothing : p ≡ 0 → used ≡ rest → Drops need p used rest
  block :
      (r : Run) → p ≡ r.start + 16 → r.frames ≡ need → Removes r used rest → Drops need p used rest

Removes-append :
    (bs : List Run) {r : Run} {used rest : List Run}
    → Removes r used rest
    → Removes r (bs ++ used) (bs ++ rest)
Removes-append [] m = m
Removes-append (b ∷ bs) m = later b (Removes-append bs m)

pub Drops-append :
    (bs : List Run) {need p : ℕ} {used rest : List Run}
    → Drops need p used rest
    → Drops need p (bs ++ used) (bs ++ rest)
Drops-append bs (nothing z e) = nothing z (ap (λ (l : List Run). bs ++ l) e)
Drops-append bs (block r e f m) = block r e f (Removes-append bs m)

-- What `kmalloc` returns.
pub record Given (need : ℕ) (h : Heap) (free used : List Run) (n : ℕ) (result : Option (ℕ × Heap))
    : Type 0 where
  pub ptr : ℕ
  pub heap : Heap
  pub free' : List Run
  pub taken : List Run
  pub result_eq : result ≡ some (ptr, heap)
  pub well : IsHeap heap free' (taken ++ used) n
  pub drops : (base : List Run) → Drops need ptr (taken ++ base) base
  pub bytes : (x : ℕ) → held x free' + held x (taken ++ used) ≡ held x free + held x used

given :
    (need : ℕ) (h : Heap) (free used : List Run) (n : ℕ) (result : Option (ℕ × Heap))
    (o : Option (ℕ × List Run))
    → IsHeap h free used n
    → Allocates need h free used n result o
    → Given need h free used n result
given need h free used n result none i (e, _) = record {
  ptr = 0;
  heap = h;
  free' = free;
  taken = [];
  result_eq = e;
  well = i;
  drops = λ base. nothing refl refl;
  bytes = λ x. refl;
}
given need h free used n result (some (a, free')) i (h', e, i', bytes, _) = record {
  ptr = a + 16;
  heap = h';
  free' = free';
  taken = run a need ∷ [];
  result_eq = e;
  well = i';
  drops = λ base. block (run a need) refl refl (first base);
  bytes = λ x. unfold held in omega (arith, bytes x);
}

pub kmalloc-Given :
    (size : ℕ) {h : Heap} {free used : List Run} {n : ℕ}
    → size ≤ max_size
    → IsHeap h free used n
    → Given (frames_for size) h free used n (kmalloc size h)
kmalloc-Given size {h} {free} {used} {n} small i =
    given (frames_for size) h free used n (kmalloc size h) (first_fit (frames_for size) free) i
      (kmalloc-Allocates size small i)

-- What `kfree` leaves: a well-formed heap with the other blocks, and every byte in a run as before.
pub record Freed (h : Heap) (free used rest : List Run) (n : ℕ) : Type 0 where
  pub free' : List Run
  pub well : IsHeap h free' rest n
  pub bytes : (x : ℕ) → held x free' + held x rest ≡ held x free + held x used

pub kfree_null : (p : ℕ) (h : Heap) → p ≡ 0 → kfree p h ≡ h
unfolding kfree
kfree_null p h e = rw e refl

pub kfree-Freed :
    {need p : ℕ} {h : Heap} {free used rest : List Run} {n : ℕ}
    → IsHeap h free used n
    → Drops need p used rest
    → Freed (kfree p h) free used rest n
kfree-Freed {p = p} {h = h} {free} {used} {rest} {n} i (nothing z e) =
    subst (λ (l : List Run). Freed (kfree p h) free used l n) e
      (subst (λ (g : Heap). Freed g free used used n) (sym (kfree_null p h z))
        (record { free' = free; well = i; bytes = λ x. refl }))
kfree-Freed {h = h} {free} {used} {rest} {n} i (block r e f m) =
    subst (λ (q : ℕ). Freed (kfree q h) free used rest n) (sym e)
      (record {
        free' = r ∷ free;
        well = (kfree_lem i m).0;
        bytes = λ x. unfold held in omega (arith, held-Removes x m);
      })

set_elem-store :
    (a i v : ℕ) (h : Heap)
    → set_elem a i v h ≡ store (word_at (add64 a i)) (with_byte h.memory (add64 a i) v) h
unfolding set_elem store put_byte
set_elem-store a i v h = refl

payload :
    (r : Run) (i : ℕ)
    → IsRun r
    → i + 16 < r.frames * 4096
    → IsPayload (word_at (add64 (r.start + 16) i)) r
unfolding hits
payload r i v h =
    let at : add64 (r.start + 16) i ≡ r.start + 16 + i = omega (arith, v.inside) in
    rw at (record {
      aligned = omega arith;
      above = omega (arith, v.aligned);
      below = omega (arith, v.aligned);
    })

-- A write to an element of a block keeps the heap well formed.
set_elem-IsHeap :
    {need p : ℕ} {h : Heap} {free used rest : List Run} {n : ℕ} (i v : ℕ)
    → IsHeap h free used n
    → p ≢ 0
    → i + 16 < need * 4096
    → Drops need p used rest
    → IsHeap (set_elem p i v h) free used n
set_elem-IsHeap i v w live room (nothing z e) = absurd (live z)
set_elem-IsHeap {p = p} {h = h} {free} {used} {n = n} i v w live room (block r e f m) =
    subst (λ (q : ℕ). IsHeap (set_elem q i v h) free used n) (sym e)
      (subst (λ (g : Heap). IsHeap g free used n) (sym (set_elem-store (r.start + 16) i v h))
        (store-IsHeap _ _ w m (payload r i (AllRuns-Removes m w.used_runs).0 (omega (arith, f)))))

fill-IsHeap :
    (k i : ℕ) {need p : ℕ} {h : Heap} {free used rest : List Run} {n : ℕ}
    → IsHeap h free used n
    → p ≢ 0
    → i + k + 16 ≤ need * 4096
    → Drops need p used rest
    → IsHeap (fill k i p h) free used n
unfolding fill
fill-IsHeap zero i w live room d = w
fill-IsHeap (suc k) i {p = p} w live room d =
    fill-IsHeap k (i + 1) (set_elem-IsHeap i i w live (omega arith) d) live (omega arith) d

pub exercise-IsHeap :
    {a b : ℕ} {h : Heap} {free used ra rb : List Run} {n : ℕ}
    → IsHeap h free used n
    → a ≢ 0
    → b ≢ 0
    → Drops 1 a used ra
    → Drops 2 b used rb
    → IsHeap (exercise a b h).1 free used n
unfolding exercise
exercise-IsHeap w la lb da db =
    set_elem-IsHeap 4999 0x55
      (set_elem-IsHeap 0 0xaa (fill-IsHeap 100 0 w la (omega arith) da) lb (omega arith) db) lb
      (omega arith) db

-- A block ends below 2 ^ 64.
pub block_below :
    {need p : ℕ} {h : Heap} {free used rest : List Run} {n : ℕ}
    → IsHeap h free used n
    → Drops need p used rest
    → p ≤ 0x4000_0000
block_below w (nothing z e) = omega (arith, z)
block_below w (block r e f m) =
    let v = (AllRuns-Removes m w.used_runs).0 in omega (arith, e, v.inside, v.frames)
