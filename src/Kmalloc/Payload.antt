-- ===== src/Kmalloc/Payload.antt =====
-- Writes of a block's owner: to words of its run behind the header. A write of a byte changes the word at
-- an address divisible by 8 that the byte lies in.
use nadir_kernel.Base.{◌*◌, ◌%◌, ℕ, ◌+◌, ◌≤◌, ◌≡◌, refl, ap, ◌∙◌, List, arith, update, beq_of_ne}
use nadir_kernel.Kmalloc.{Memory, Heap, frames_at, store}
use nadir_kernel.Kmalloc.Runs.{Run, IsRun, AllRuns, hits, held, hits_start, hits_frames}
use nadir_kernel.Kmalloc.Chain.{Headers, Agree, Chain-Agree, Headers-Agree, frames_at_lem}
use nadir_kernel.Kmalloc.Alloc.{IsHeap}
use nadir_kernel.Kmalloc.Free.{Removes, first, later, held-Removes}

-- `x` is the address, divisible by 8, of a word of the run `r` that is no word of its header.
pub record IsPayload (x : ℕ) (r : Run) : Type 0 where
  pub aligned : x % 8 ≡ 0
  pub above : r.start + 16 ≤ x
  pub below : x + 8 ≤ r.start + r.frames * 4096

payload-hits : (x : ℕ) (r : Run) → IsPayload x r → hits x r ≡ 1
unfolding hits
payload-hits x r p = ground (arith, p.above, p.below)

pub put_Agree :
    (mem : Memory) (x w : ℕ) (rs : List Run) → held x rs ≡ 0 → Agree rs mem (update mem x w)
put_Agree mem x w rs h y more =
    rw (beq_of_ne x y (λ e. absurd (omega (arith, h, more, ap (λ z. held z rs) e)))) refl

other_header :
    (mem : Memory) (x w : ℕ) (s : Run)
    → IsRun s
    → hits x s ≡ 0
    → (update mem x w s.start ≡ mem s.start)
      × (update mem x w (frames_at s.start) ≡ mem (frames_at s.start))
other_header mem x w s v miss = (
  rw (beq_of_ne x s.start (λ e. absurd (omega (arith, miss, ap (λ z. hits z s) e, hits_start s v))))
      refl,
  rw
      (
        frames_at_lem s v,
        beq_of_ne x (s.start + 8)
            (λ e. absurd (omega (arith, miss, ap (λ z. hits z s) e, hits_frames s v))),
      )
      refl,
)

own_header :
    (mem : Memory) (x w : ℕ) (r : Run)
    → IsRun r
    → IsPayload x r
    → (update mem x w r.start ≡ mem r.start)
      × (update mem x w (frames_at r.start) ≡ mem (frames_at r.start))
own_header mem x w r v p = (
  rw (beq_of_ne x r.start (λ e. absurd (omega (arith, e, p.above)))) refl,
  rw (frames_at_lem r v, beq_of_ne x (r.start + 8) (λ e. absurd (omega (arith, e, p.above)))) refl,
)

put-Headers :
    (mem : Memory) (x w : ℕ) {r : Run} {used rest : List Run}
    → AllRuns used
    → IsPayload x r
    → held x used ≤ 1
    → Removes r used rest
    → Headers mem used
    → Headers (update mem x w) used
unfolding held
put-Headers mem x w {r} v p one (first rs) h =
    let (start, frames) = own_header mem x w r v.0 p in
    (
      start ∙ h.0,
      frames ∙ h.1,
      Headers-Agree rs {mem = mem} {mem' = update mem x w} v.1
          (put_Agree mem x w rs (omega (arith, payload-hits x r p, one))) h.2,
    )
put-Headers mem x w {r} v p one (later {rs} {rest} s m) h =
    let (start, frames) =
      other_header mem x w s v.0 (omega (arith, held-Removes x m, payload-hits x r p, one)) in
    (start ∙ h.0, frames ∙ h.1, put-Headers mem x w v.1 p (omega (arith, one)) m h.2)

-- A write to the payload of a block keeps the heap well formed.
pub store-IsHeap :
    (x w : ℕ) {r : Run} {h : Heap} {free used rest : List Run} {size : ℕ}
    → IsHeap h free used size
    → Removes r used rest
    → IsPayload x r
    → IsHeap (store x w h) free used size
unfolding store
store-IsHeap x w {r} {h} {free} {used} i m p = record {
  chain =
      Chain-Agree free h.g_free_list {mem = h.memory} {mem' = update h.memory x w} i.free_runs
        (put_Agree h.memory x w free
          (omega (arith, i.apart x, held-Removes x m, payload-hits x r p)))
        i.chain;
  headers = put-Headers h.memory x w i.used_runs p (omega (arith, i.apart x)) m i.headers;
  free_runs = i.free_runs;
  used_runs = i.used_runs;
  apart = i.apart;
  free_frames = i.free_frames;
  used_frames = i.used_frames;
  all_frames = i.all_frames;
  small = i.small;
}
