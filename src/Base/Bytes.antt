-- ===== src/Base/Bytes.antt =====
-- Texts as lists of byte values.
use Prim.Native.Nat.{ℕ, ◌-◌}
use Prim.Native.Char.{code}
use Prim.Native.String.{String}
use mathlib.Core.Path.{◌≡◌, refl}
use mathlib.Core.Logic.{◌↔◌}
use mathlib.Core.Bool.{Bool, true, false, ◌&&◌}
use mathlib.Core.List.{List, [], ◌∷◌}
use native.Mathlib.Omega.{arith}
use meinheld.Base.Tests.{leb, ◌==◌, if◌then◌else◌}

-- The bytes of an ASCII text.
abbrev pub codes : String → List ℕ
codes String.[] = []
codes (String.◌∷◌ c s) = code c ∷ codes s

unfoldable pub bytes_eq : List ℕ → List ℕ → Bool
bytes_eq [] [] = true
bytes_eq (a ∷ s) (b ∷ t) = (a == b) && bytes_eq s t
bytes_eq _ _ = false

pub bytes_eq_iff : (s t : List ℕ) → (bytes_eq s t ≡ true) ↔ (s ≡ t)
unfolding bytes_eq
bytes_eq_iff [] [] = ((λ _. refl), λ _. refl)
bytes_eq_iff [] (b ∷ t) = ((λ e. cc), λ e. cc)
bytes_eq_iff (a ∷ s) [] = ((λ e. cc), λ e. cc)
bytes_eq_iff (a ∷ s) (b ∷ t) =
    ((λ e. ground (arith, bytes_eq_iff s t)), λ e. ground (arith, bytes_eq_iff s t))

-- The bytes before the first `stop`: up to a NUL, what `strlen` counts.
unfoldable pub take_until : ℕ → List ℕ → List ℕ
take_until stop [] = []
take_until stop (c ∷ r) = if c == stop then [] else c ∷ take_until stop r

-- ASCII `toupper`
abbrev pub to_upper : ℕ → ℕ
to_upper c = if leb 97 c && leb c 122 then c - 32 else c
