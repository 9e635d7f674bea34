-- ===== src/Pic/Manual.antt =====
-- What the controllers do by their manual: a write to the command port with bit 4 starts initialisation,
-- the three writes to the data port after it belong to it, and from the next one on the data port holds
-- the mask.
use Prim.Native.Nat.{bit_and}
use nadir_kernel.Base.{
  ℕ, suc, ◌%◌, ◌≤◌, ◌<◌, ◌≡◌, refl, ◌∙◌, Bool, true, false, not, ◌||◌, [], ◌∷◌, arith, ltb, leb,
  ◌==◌, if◌then◌else◌, Bool-cases, inl, inr,
}
use nadir_kernel.Io.{Log, Bus, put, got, inb, outb, io_wait}
use nadir_kernel.Io.Writes.{Extends, same, read, write, last_put, last_put-Extends}
use nadir_kernel.Pic.{outb_slow, pic_remap, pic_unmask, mask_port}
use nadir_kernel.Pic.Lines.{Latches}

-- 0 before any initialisation, and 1 more than the writes to the data port since the last one began.
unfoldable pub stage : ℕ → ℕ → Log → ℕ
stage cmd dat [] = 0
stage cmd dat (got p v ∷ log) = stage cmd dat log
stage cmd dat (put p v ∷ log) =
    let n = stage cmd dat log in
    if p == cmd
    then (if bit_and v 0x10 == 0 then n else 1)
    else if p == dat
    then (if n == 0 then 0 else suc n)
    else n

abbrev pub cmd_port : ℕ → ℕ
cmd_port irq = if ltb irq 8 then 0x20 else 0xa0

abbrev pub stage_of : ℕ → Log → ℕ
stage_of irq log = stage (cmd_port irq) (mask_port irq) log

-- Both controllers hold a mask.
pub record IsReady (log : Log) : Type 0 where
  pub master : 5 ≤ stage_of 0 log
  pub slave : 5 ≤ stage_of 8 log
  pub master_mask : last_put 0x21 log < 256
  pub slave_mask : last_put 0xa1 log < 256

-- The hardware: once a controller is set up, its data port reads as the byte last written there.
pub record HoldsMasks (bus : Bus) : Type 0 where
  pub reads :
      (irq : ℕ) (log : Log)
      → irq < 16
      → 5 ≤ stage_of irq log
      → bus log (mask_port irq) % 256 ≡ last_put (mask_port irq) log % 256

pub IsReady-Latches : (bus : Bus) (log : Log) → HoldsMasks bus → IsReady log → Latches bus log
IsReady-Latches bus log h r = record {
  reads = λ irq lt. omega (arith, h.reads irq log lt (chip irq), byte irq);
}
  where
    byte : (irq : ℕ) → last_put (mask_port irq) log < 256
    byte irq = elim (Bool-cases (ltb irq 8)) [
      | inl low ↦ rw low r.master_mask
      | inr high ↦ rw high r.slave_mask
    ]

    chip : (irq : ℕ) → 5 ≤ stage_of irq log
    chip irq = elim (Bool-cases (ltb irq 8)) [
      | inl low ↦ rw low r.master
      | inr high ↦ rw high r.slave
    ]

pub pic_remap-IsReady : (log : Log) → IsReady (pic_remap log)
unfolding pic_remap outb_slow io_wait outb stage last_put
pic_remap-IsReady log = record {
  master = omega arith;
  slave = omega arith;
  master_mask = omega arith;
  slave_mask = omega arith;
}

-- No port of a controller.
unfoldable pub off_pic : ℕ → Bool
off_pic p = not (p == 0x20 || p == 0x21 || p == 0xa0 || p == 0xa1)

stage_step :
    (cmd dat p v : ℕ) (log : Log)
    → (p == cmd) ≡ false
    → (p == dat) ≡ false
    → stage cmd dat (put p v ∷ log) ≡ stage cmd dat log
unfolding stage
stage_step cmd dat p v log a b = rw (a, b) refl

stage-Extends :
    (cmd dat : ℕ) {log log' : Log}
    → ((p : ℕ) → off_pic p ≡ true → ((p == cmd) ≡ false) × ((p == dat) ≡ false))
    → Extends off_pic log log'
    → stage cmd dat log' ≡ stage cmd dat log
unfolding stage
stage-Extends cmd dat h same = refl
stage-Extends cmd dat h (read p v r) = stage-Extends cmd dat h r
stage-Extends cmd dat h (write {log'} p v ok r) =
    stage_step cmd dat p v log' (h p ok).0 (h p ok).1 ∙ stage-Extends cmd dat h r

off_master : (p : ℕ) → off_pic p ≡ true → ((p == 0x20) ≡ false) × ((p == 0x21) ≡ false)
unfolding off_pic
off_master p h = (ground arith, ground arith)

off_slave : (p : ℕ) → off_pic p ≡ true → ((p == 0xa0) ≡ false) × ((p == 0xa1) ≡ false)
unfolding off_pic
off_slave p h = (ground arith, ground arith)

pub IsReady-Extends : {log log' : Log} → Extends off_pic log log' → IsReady log → IsReady log'
IsReady-Extends x r = record {
  master = omega (arith, stage-Extends 0x20 0x21 off_master x, r.master);
  slave = omega (arith, stage-Extends 0xa0 0xa1 off_slave x, r.slave);
  master_mask =
      omega (
        arith,
        last_put-Extends {allowed = off_pic} 0x21 (unfold off_pic in refl) x,
        r.master_mask,
      );
  slave_mask =
      omega
        (arith, last_put-Extends {allowed = off_pic} 0xa1 (unfold off_pic in refl) x, r.slave_mask);
}

pub pic_unmask-IsReady :
    (bus : Bus) (irq : ℕ) (log : Log) → IsReady log → IsReady (pic_unmask bus irq log)
unfolding pic_unmask inb outb stage last_put
pic_unmask-IsReady bus irq log r = elim (Bool-cases (leb 16 irq)) [
  | inl out ↦ rw out r
  | inr line ↦ rw line (elim (Bool-cases (ltb irq 8)) [
    | inl low ↦ rw low (record {
      master = ground (arith, r.master);
      slave = r.slave;
      master_mask = omega arith;
      slave_mask = r.slave_mask;
    })
    | inr high ↦ rw high (record {
      master = r.master;
      slave = ground (arith, r.slave);
      master_mask = r.master_mask;
      slave_mask = omega arith;
    })
  ])
]
