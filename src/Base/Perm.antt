-- ===== src/Base/Perm.antt =====
-- Predicates on all entries of a list, and permutations.
use mathlib.Core.List.{Perm, Permᴰ}
use mathlib.Core.Logic.{∥∥₁_elim}
use mathlib.Core.HLevel.{×_prop}
use native.Mathlib.Nat.{ℕ_set}
use Prim.Native.Nat.{ℕ, suc, ◌<◌}
use mathlib.Core.Path.{◌≡◌, refl, ap, ◌∙◌, subst}
use mathlib.Core.List.{List, [], ◌∷◌, ◌++◌}
use native.Mathlib.Omega.{arith}
use meinheld.Base.Lists.{All, length, get_or}

module _ {ℓ} {A : Type ℓ} where
  pub All-append {κ} : (P : A → Type κ) (xs ys : List A) → All P xs → All P ys → All P (xs ++ ys)
  All-append P [] ys h k = k
  All-append P (x ∷ xs) ys h k = (h.0, All-append P xs ys h.1 k)

  pub All-by_index {κ} :
      (P : A → Type κ) (d : A) (xs : List A)
      → ((i : ℕ) → i < length xs → P (get_or xs i d))
      → All P xs
  All-by_index P d [] h = tt
  All-by_index P d (x ∷ xs) h =
      (h 0 (omega arith), All-by_index P d xs (λ i k. h (suc i) (omega arith)))

  All-prop {κ} : (P : A → Type κ) → ((a : A) → IsProp (P a)) → (xs : List A) → IsProp (All P xs)
  All-prop P prop [] = λ a b. refl
  All-prop P prop (x ∷ xs) = ×_prop (prop x) (All-prop P prop xs)

  Permᴰ-All {κ} : (P : A → Type κ) {xs ys : List A} → Permᴰ xs ys → All P xs → All P ys
  Permᴰ-All P Permᴰ.nil h = h
  Permᴰ-All P (Permᴰ.cons e p) h = (subst P e h.0, Permᴰ-All P p h.1)
  Permᴰ-All P (Permᴰ.swap e f) h = (subst P f h.1.0, (subst P e h.0, h.1.1))
  Permᴰ-All P (Permᴰ.trans p q) h = Permᴰ-All P q (Permᴰ-All P p h)

  pub All-perm {κ} :
      (P : A → Type κ)
      → ((a : A) → IsProp (P a))
      → {xs ys : List A} → Perm xs ys
      → All P xs
      → All P ys
  All-perm P prop {ys = ys} p h = ∥∥₁_elim p (All-prop P prop ys) (λ d. Permᴰ-All P d h)

  Permᴰ-length : {xs ys : List A} → Permᴰ xs ys → length xs ≡ length ys
  Permᴰ-length Permᴰ.nil = refl
  Permᴰ-length (Permᴰ.cons e p) = ap suc (Permᴰ-length p)
  Permᴰ-length (Permᴰ.swap e f) = refl
  Permᴰ-length (Permᴰ.trans p q) = Permᴰ-length p ∙ Permᴰ-length q

  pub length-perm : {xs ys : List A} → Perm xs ys → length xs ≡ length ys
  length-perm p = ∥∥₁_elim p (ℕ_set _ _) Permᴰ-length
