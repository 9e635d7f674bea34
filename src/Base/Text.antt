-- ===== src/Base/Text.antt =====
-- String literals of C: the characters before the NUL.
use Prim.Native.Nat.{ℕ, ◌%◌}
use Prim.Native.Char.{code}
use Prim.Native.String.{String}
use mathlib.Core.Path.{◌≡◌, refl, ap}
use mathlib.Core.List.{List, [], ◌∷◌, ◌++◌}
use mathlib.Core.Bool.{Bool, true, not, ◌&&◌}
use nadir_kernel.Base.Tests.{◌==◌}

abbrev pub codes : String → List ℕ
codes String.[] = []
codes (String.◌∷◌ c s) = code c ∷ codes s

-- Characters as `uint8_t`.
unfoldable pub to_bytes : List ℕ → List ℕ
to_bytes [] = []
to_bytes (c ∷ cs) = (c % 256) ∷ to_bytes cs

pub to_bytes-append : (cs ds : List ℕ) → to_bytes (cs ++ ds) ≡ to_bytes cs ++ to_bytes ds
unfolding to_bytes
to_bytes-append [] ds = refl
to_bytes-append (c ∷ cs) ds = ap (λ (bs : List ℕ). (c % 256) ∷ bs) (to_bytes-append cs ds)

-- The text has no NUL.
unfoldable pub all_printed : List ℕ → Bool
all_printed [] = true
all_printed (c ∷ cs) = not (c == 0) && all_printed cs
