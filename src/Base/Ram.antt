-- ===== src/Base/Ram.antt =====
-- A memory of bytes, and numbers in it with the lowest byte first.
use Prim.Native.Nat.{ℕ, zero, suc, ◌+◌, ◌-◌, ◌*◌, ◌/◌, ◌%◌, ◌^◌, ◌≤◌, ◌<◌}
use mathlib.Core.Path.{◌≡◌, refl, ap, ◌∙◌}
use mathlib.Core.Bool.{Bool, true, false, ◌&&◌}
use mathlib.Core.Logic.{inl, inr}
use native.Mathlib.Nat.{pow-suc}
use native.Mathlib.Omega.{arith}
use nadir_kernel.Base.Tests.{◌==◌, ltb, leb, if◌then◌else◌, Bool-cases}
use nadir_kernel.Base.Lists.{update}

unfoldable pub get_le : ℕ → ℕ → (ℕ → ℕ) → ℕ
get_le zero a mem = 0
get_le (suc n) a mem = mem a % 256 + 256 * get_le n (a + 1) mem

unfoldable pub put_le : ℕ → ℕ → ℕ → (ℕ → ℕ) → ℕ → ℕ
put_le zero a v mem = mem
put_le (suc n) a v mem = put_le n (a + 1) (v / 256) (update mem a (v % 256))

-- `rep stosb` with 0 in al
unfoldable pub zero_bytes : ℕ → ℕ → (ℕ → ℕ) → ℕ → ℕ
zero_bytes zero rdi mem = mem
zero_bytes (suc n) rdi mem = zero_bytes n (rdi + 1) (update mem rdi 0)

-- `rep movsb`
unfoldable pub copy_bytes : ℕ → ℕ → ℕ → (ℕ → ℕ) → ℕ → ℕ
copy_bytes zero rsi rdi mem = mem
copy_bytes (suc n) rsi rdi mem = copy_bytes n (rsi + 1) (rdi + 1) (update mem rdi (mem rsi))

-- The bytes of a table from an address on.
unfoldable pub store_bytes : ℕ → (ℕ → ℕ) → ℕ → (ℕ → ℕ) → ℕ → ℕ
store_bytes zero bytes a mem = mem
store_bytes (suc n) bytes a mem =
    store_bytes n (λ j. bytes (j + 1)) (a + 1) (update mem a (bytes 0))

-- An address from `a` on and below `a + n`.
abbrev pub within : ℕ → ℕ → ℕ → Bool
within a n i = leb a i && ltb i (a + n)

pub zero_bytes_lem :
    (n a i : ℕ) (mem : ℕ → ℕ) → zero_bytes n a mem i ≡ (if within a n i then 0 else mem i)
unfolding zero_bytes
zero_bytes_lem zero a i mem = ground arith
zero_bytes_lem (suc n) a i mem = zero_bytes_lem n (a + 1) i (update mem a 0) ∙ ground arith

pub store_bytes_lem :
    (n a i : ℕ) (bytes mem : ℕ → ℕ)
    → store_bytes n bytes a mem i ≡ (if within a n i then bytes (i - a) else mem i)
unfolding store_bytes
store_bytes_lem zero a i bytes mem = ground arith
store_bytes_lem (suc n) a i bytes mem =
    store_bytes_lem n (a + 1) i (λ j. bytes (j + 1)) (update mem a (bytes 0))
    ∙ elim (Bool-cases (within (a + 1) n i)) [
      | inl later ↦
          let here : within a (suc n) i ≡ true = ground (arith, later) in
          rw (later, here) (ap bytes (let e : i - (a + 1) + 1 ≡ i - a = ground (arith, later) in e))
      | inr not_later ↦ elim (Bool-cases (a == i)) [
        | inl first ↦
            let here : within a (suc n) i ≡ true = ground (arith, first) in
            rw (not_later, first, here) (ap bytes (let e : 0 ≡ i - a = ground (arith, first) in e))
        | inr off ↦
            let outside : within a (suc n) i ≡ false = ground (arith, not_later, off) in
            rw (not_later, off, outside) refl
      ]
    ]

-- A copy to a place behind the source.
pub copy_bytes_lem :
    (n a b i : ℕ) (mem : ℕ → ℕ)
    → a + n ≤ b
    → copy_bytes n a b mem i ≡ (if within b n i then mem (a + (i - b)) else mem i)
unfolding copy_bytes
copy_bytes_lem zero a b i mem h = ground arith
copy_bytes_lem (suc n) a b i mem h =
    copy_bytes_lem n (a + 1) (b + 1) i (update mem b (mem a)) (omega arith)
    ∙ elim (Bool-cases (within (b + 1) n i)) [
      | inl later ↦
          let here : within b (suc n) i ≡ true = ground (arith, later) in
          let apart : (b == a + 1 + (i - (b + 1))) ≡ false = ground (arith, later) in
          rw (later, here, apart)
            (ap mem (let e : a + 1 + (i - (b + 1)) ≡ a + (i - b) = ground (arith, later) in e))
      | inr not_later ↦ elim (Bool-cases (b == i)) [
        | inl first ↦
            let here : within b (suc n) i ≡ true = ground (arith, first) in
            rw (not_later, first, here)
              (ap mem (let e : a ≡ a + (i - b) = ground (arith, first) in e))
        | inr off ↦
            let outside : within b (suc n) i ≡ false = ground (arith, not_later, off) in
            rw (not_later, off, outside) refl
      ]
    ]

-- Numbers from equal bytes are equal.
pub get_le-eq :
    (n a b : ℕ) (m m' : ℕ → ℕ)
    → ((j : ℕ) → j < n → m (a + j) ≡ m' (b + j))
    → get_le n a m ≡ get_le n b m'
unfolding get_le
get_le-eq zero a b m m' h = refl
get_le-eq (suc n) a b m m' h =
    let first : m a ≡ m' b = ap m (omega arith) ∙ h 0 (omega arith) ∙ ap m' (omega arith) in
    let rest : get_le n (a + 1) m ≡ get_le n (b + 1) m' =
      get_le-eq n (a + 1) (b + 1) m m'
        (λ j lt. ap m (omega arith) ∙ h (j + 1) (omega arith) ∙ ap m' (omega arith)) in
    omega (arith, first, rest)

pub get_le-lt : (n a : ℕ) (mem : ℕ → ℕ) → get_le n a mem < 256 ^ n
unfolding get_le
get_le-lt zero a mem = omega arith
get_le-lt (suc n) a mem = omega (arith, get_le-lt n (a + 1) mem, pow-suc 256 n)

pub put_le_off : (n a v i : ℕ) (mem : ℕ → ℕ) → within a n i ≡ false → put_le n a v mem i ≡ mem i
unfolding put_le
put_le_off zero a v i mem h = refl
put_le_off (suc n) a v i mem h =
    put_le_off n (a + 1) (v / 256) i (update mem a (v % 256)) (ground (arith, h))
    ∙ ground (arith, h)

pub get_le-put_le : (n a v : ℕ) (mem : ℕ → ℕ) → v < 256 ^ n → get_le n a (put_le n a v mem) ≡ v
unfolding get_le put_le
get_le-put_le zero a v mem h = omega arith
get_le-put_le (suc n) a v mem h =
    let first = put_le_off n (a + 1) (v / 256) a (update mem a (v % 256)) (ground arith) in
    let rest =
      get_le-put_le n (a + 1) (v / 256) (update mem a (v % 256)) (omega (arith, pow-suc 256 n)) in
    rw (first, rest) (ground arith)
