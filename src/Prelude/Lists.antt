-- ===== src/Prelude/Lists.antt =====
-- Lists measured by native numbers, and predicates over lists.
use Prim.Native.Nat.{ℕ, suc, ◌+◌}
use mathlib.Core.Path.{◌≡◌}
use mathlib.Core.List.{List, [], ◌∷◌, ◌++◌}
use native.Mathlib.Omega.{arith}

module _ {ℓ} {A : Type ℓ} where
  abbrev pub length : List A → ℕ
  length [] = 0
  length (x ∷ xs) = suc (length xs)

  pub length-append : (xs ys : List A) → length (xs ++ ys) ≡ length xs + length ys
  length-append [] ys = omega arith
  length-append (x ∷ xs) ys = omega (arith, length-append xs ys)

abbrev pub All {ℓ κ} : {A : Type ℓ} → (A → Type κ) → List A → Type κ
All P [] = Unit
All P (x ∷ xs) = P x × All P xs

module _ {ℓ κ} {A : Type ℓ} (P : A → Type κ) where
  pub All-middle :
      (before behind : List A) (a : A)
      → All P (before ++ a ∷ behind)
      → P a × All P (before ++ behind)
  All-middle [] behind a h = h
  All-middle (b ∷ before) behind a h =
      let (here, rest) = All-middle before behind a h.1 in (here, (h.0, rest))

  pub All-map {μ} : (Q : A → Type μ) → ((a : A) → P a → Q a) → (l : List A) → All P l → All Q l
  All-map Q f [] h = tt
  All-map Q f (a ∷ l) h = (f a h.0, All-map Q f l h.1)

  pub All-zip {μ} : (Q : A → Type μ) (l : List A) → All P l → All Q l → All (λ a. P a × Q a) l
  All-zip Q [] h k = tt
  All-zip Q (a ∷ l) h k = ((h.0, k.0), All-zip Q l h.1 k.1)
