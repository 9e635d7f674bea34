-- ===== src/Keyboard/Typing.antt =====
-- What scancodes do: modifiers, ignored codes, and the bytes that keys give.
use nadir_kernel.Base.{
  ℕ, ◌%◌, ◌<◌, ◌≡◌, ◌≢◌, refl, ◌∙◌, Bool, true, false, not, ◌&&◌, ◌||◌, List, ◌∷◌, arith, ltb, leb,
  ◌==◌, if◌then◌else◌, Bool-cases, inl, inr, eq_of_beq,
}
use nadir_kernel.Base.Bits.{all_below, all_below_sound}
use nadir_kernel.Io.{Log, Bus, got, inb}
use nadir_kernel.Keyboard.{
  Keyboard, enqueue, k_unshifted, k_shifted, translate, differ, on_code, keyboard_on_irq,
}
use nadir_kernel.Keyboard.Ring.{IsRing, contents, offer, enqueue-offer}

-- The flags of the driver are 0 or 1.
pub record IsDriver (k : Keyboard) : Type 0 where
  pub ring : IsRing k
  pub shift : k.k_shift < 2
  pub caps : k.k_caps < 2
  pub e0 : k.k_e0 < 2

-- An independent account of a key: a letter is capital when exactly one of Shift and Caps Lock is on,
-- any other key takes its shifted character when Shift is on.
unfoldable pub is_letter : ℕ → Bool
is_letter code = leb b'a' (k_unshifted code) && leb (k_unshifted code) b'z'

unfoldable pub key_char : ℕ → Bool → Bool → ℕ
key_char code shift caps =
    if (if is_letter code then differ shift caps else shift)
    then k_shifted code
    else k_unshifted code

pub on : ℕ → Bool
on n = not (n == 0)

with_flags : ℕ → ℕ → Keyboard
with_flags s c = record {
  k_buf = λ i. 0;
  k_head = 0;
  k_tail = 0;
  k_shift = s;
  k_caps = c;
  k_e0 = 0;
}

agree : ℕ → ℕ → ℕ → Bool
agree s c code =
    k_unshifted code == 0
    || (translate code (k_unshifted code) (with_flags s c) == key_char code (on s) (on c))

agree_table : (all_below 2 (λ s. all_below 2 (λ c. all_below 128 (λ code. agree s c code)))) ≡ true
unfolding all_below agree translate key_char is_letter k_unshifted k_shifted on with_flags
agree_table = refl

translate_flags :
    (code : ℕ) (k : Keyboard)
    → translate code (k_unshifted code) k
      ≡ translate code (k_unshifted code) (with_flags k.k_shift k.k_caps)
unfolding translate with_flags
translate_flags code k = refl

translate-key_char :
    (code : ℕ) (k : Keyboard)
    → code < 128
    → k.k_shift < 2
    → k.k_caps < 2
    → k_unshifted code ≢ 0
    → translate code (k_unshifted code) k ≡ key_char code (on k.k_shift) (on k.k_caps)
unfolding agree
translate-key_char code k hc hs hp key =
    translate_flags code k
    ∙ eq_of_beq _ _ (
        right (k_unshifted code) _ key (
          all_below_sound 128 _ code
            (all_below_sound 2 _ k.k_caps
              (all_below_sound 2 (λ s. all_below 2 (λ c. all_below 128 (λ code. agree s c code)))
                k.k_shift agree_table hs)
              hp)
            hc))
  where
    right : (a : ℕ) (b : Bool) → a ≢ 0 → (a == 0 || b) ≡ true → b ≡ true
    right a b ne h = ground arith

-- The driver as its user sees it: three flags and the bytes that wait.
pub record Typist : Type 0 where
  pub shift : Bool
  pub caps : Bool
  pub e0 : Bool
  pub queue : List ℕ

abbrev pub view : Keyboard → Typist
view k = record { shift = on k.k_shift; caps = on k.k_caps; e0 = on k.k_e0; queue = contents k }

-- What a scancode should do: 0xe0 swallows the next code; Shift acts on press and release, Caps Lock on
-- press; other releases and keys without a character do nothing; any other key offers its character.
unfoldable pub type_code : ℕ → Typist → Typist
type_code code t =
    if code == 0xe0
    then record t { e0 = true }
    else if t.e0
    then record t { e0 = false }
    else if code == 0xaa || code == 0xb6
    then record t { shift = false }
    else if leb 0x80 code
    then t
    else if code == 0x2a || code == 0x36
    then record t { shift = true }
    else if code == 0x3a
    then record t { caps = not t.caps }
    else if k_unshifted code == 0
    then t
    else record t { queue = offer (key_char code t.shift t.caps) t.queue }

enqueue_flags :
    (c : ℕ) (k : Keyboard)
    → ((enqueue c k).k_shift ≡ k.k_shift)
      × ((enqueue c k).k_caps ≡ k.k_caps)
      × ((enqueue c k).k_e0 ≡ k.k_e0)
unfolding enqueue
enqueue_flags c k = ground arith

enqueue-view :
    (c : ℕ) (k : Keyboard)
    → IsDriver k
    → (view (enqueue c k) ≡ record (view k) { queue = offer c (contents k) })
      × IsDriver (enqueue c k)
enqueue-view c k v =
    let (bytes, ring) = enqueue-offer c k v.ring in
    let (shift, caps, e0) = enqueue_flags c k in
    (
      rw (bytes, shift, caps, e0),
      record {
        ring = ring;
        shift = omega (arith, shift, v.shift);
        caps = omega (arith, caps, v.caps);
        e0 = omega (arith, e0, v.e0);
      },
    )

-- The scancode is one that enqueues a character.
types : ℕ → Keyboard → Bool
types code k =
    not (code == 0xe0)
    && (k.k_e0 == 0)
    && ltb code 0x80
    && not (code == 0x2a)
    && not (code == 0x36)
    && not (code == 0x3a)
    && not (k_unshifted code == 0)

quiet_code :
    (code : ℕ) (k : Keyboard)
    → code < 256
    → IsDriver k
    → types code k ≡ false
    → (view (on_code code k) ≡ type_code code (view k)) × IsDriver (on_code code k)
unfolding types on_code type_code on contents
quiet_code code k small v h = (ground arith, ground arith)

typing_code :
    (code : ℕ) (k : Keyboard)
    → types code k ≡ true
    → (on_code code k ≡ enqueue (translate code (k_unshifted code) k) k)
      × (type_code code (view k) ≡ record (view k) {
        queue = offer (key_char code (on k.k_shift) (on k.k_caps)) (contents k);
      })
unfolding types on_code type_code on
typing_code code k h = (ground arith, ground arith)

types_key : (code : ℕ) (k : Keyboard) → types code k ≡ true → (code < 128) × (k_unshifted code ≢ 0)
unfolding types
types_key code k h = ground arith

-- Whatever scancode arrives, the driver does what `type_code` says, and its flags and indices stay in
-- range.
pub on_code-type_code :
    (code : ℕ) (k : Keyboard)
    → code < 256
    → IsDriver k
    → (view (on_code code k) ≡ type_code code (view k)) × IsDriver (on_code code k)
on_code-type_code code k small v = elim (Bool-cases (types code k)) [
  | inr quiet ↦ quiet_code code k small v quiet
  | inl typed ↦
      let (does, should) = typing_code code k typed in
      let (range, key) = types_key code k typed in
      let (sees, still) = enqueue-view (translate code (k_unshifted code) k) k v in
      (rw (does, should, sees, translate-key_char code k range v.shift v.caps key), rw does still)
]

-- The interrupt handler reads one scancode from port 0x60 and does what `type_code` says of it: the bytes
-- that wait and the flags change in that way only, and flags and indices stay in range.
pub keyboard_on_irq-type_code :
    (bus : Bus) (log : Log) (k : Keyboard)
    → IsDriver k
    → let (log', k') = keyboard_on_irq bus log k in
      let code = bus log 0x60 % 256 in
      (log' ≡ got 0x60 code ∷ log) × (view k' ≡ type_code code (view k)) × IsDriver k'
unfolding keyboard_on_irq inb
keyboard_on_irq-type_code bus log k v =
    let (sees, still) = on_code-type_code (bus log 0x60 % 256) k (omega arith) v in
    (refl, sees, still)
