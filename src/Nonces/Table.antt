-- ===== src/Nonces/Table.antt =====
-- Go's `map[string]V` as an association list: look up, replace in place, insert a new key, delete,
-- and delete every entry that a test picks while counting them. The order of iteration over a Go
-- map is unspecified; no result of the program's only iteration depends on it.
use cosmos_pay.Prelude.{
  ℕ, suc, ◌+◌, String, ◌≡◌, refl, Bool, ◌==◌, eq_iff, Option, none, some, List, [], ◌∷◌, arith,
  length, if◌then◌else◌,
}

module _ {V : Type 0} where
  -- m[k]
  unfoldable pub lookup : String → List (String × V) → Option V
  lookup k [] = none
  lookup k ((j, v) ∷ m) = if j == k then some v else lookup k m

  -- a write through the pointer that m[k] holds
  unfoldable pub replace : String → V → List (String × V) → List (String × V)
  replace k v [] = []
  replace k v ((j, w) ∷ m) = if j == k then (j, v) ∷ m else (j, w) ∷ replace k v m

  -- delete(m, k)
  unfoldable pub delete : String → List (String × V) → List (String × V)
  delete k [] = []
  delete k ((j, v) ∷ m) = let rest = delete k m in if j == k then rest else (j, v) ∷ rest

  -- for k, v := range m { if drop(v) { delete(m, k); n++ } }
  unfoldable pub sweep : (V → Bool) → List (String × V) → ℕ × List (String × V)
  sweep drop [] = (0, [])
  sweep drop ((j, v) ∷ m) =
      let (n, rest) = sweep drop m in if drop v then (suc n, rest) else (n, (j, v) ∷ rest)

  -- Every key stands once, as in a Go map.
  abbrev pub HasUniqueKeys : List (String × V) → Type 0
  HasUniqueKeys [] = Unit
  HasUniqueKeys ((k, v) ∷ m) = (lookup k m ≡ none) × HasUniqueKeys m

  pub lookup-replace :
      (k j : String) (v w : V) (m : List (String × V))
      → lookup k m ≡ some w
      → lookup j (replace k v m) ≡ (if k == j then some v else lookup j m)
  unfolding lookup replace
  lookup-replace k j v w [] h = cc
  lookup-replace k j v w ((i, u) ∷ m) h =
      ground (arith, lookup-replace k j v w m, eq_iff i k, eq_iff i j, eq_iff k j)

  pub lookup-delete :
      (k j : String) (m : List (String × V))
      → lookup j (delete k m) ≡ (if k == j then none else lookup j m)
  unfolding lookup delete
  lookup-delete k j [] = ground arith
  lookup-delete k j ((i, v) ∷ m) =
      ground (arith, lookup-delete k j m, eq_iff i k, eq_iff i j, eq_iff k j)

  -- what a sweep leaves of an entry
  abbrev pub survivor : (V → Bool) → Option V → Option V
  survivor drop none = none
  survivor drop (some v) = if drop v then none else some v

  pub lookup-sweep :
      (drop : V → Bool) (k : String) (m : List (String × V))
      → HasUniqueKeys m
      → lookup k (sweep drop m).1 ≡ survivor drop (lookup k m)
  unfolding lookup sweep
  lookup-sweep drop k [] u = refl
  lookup-sweep drop k ((j, v) ∷ m) u = ground (arith, lookup-sweep drop k m u.1, eq_iff j k, u.0)

  replace-missing :
      (i k : String) (v : V) (m : List (String × V))
      → lookup i m ≡ none
      → lookup i (replace k v m) ≡ none
  unfolding lookup replace
  replace-missing i k v [] h = refl
  replace-missing i k v ((j, w) ∷ m) h =
      ground (arith, replace-missing i k v m, eq_iff j k, eq_iff j i)

  pub replace-HasUniqueKeys :
      (k : String) (v : V) (m : List (String × V)) → HasUniqueKeys m → HasUniqueKeys (replace k v m)
  unfolding replace
  replace-HasUniqueKeys k v [] u = tt
  replace-HasUniqueKeys k v ((j, w) ∷ m) u =
      ground (arith, replace-HasUniqueKeys k v m u.1, replace-missing j k v m u.0)

  delete-missing :
      (i k : String) (m : List (String × V)) → lookup i m ≡ none → lookup i (delete k m) ≡ none
  delete-missing i k m h = rw lookup-delete (ground arith)

  pub delete-HasUniqueKeys :
      (k : String) (m : List (String × V)) → HasUniqueKeys m → HasUniqueKeys (delete k m)
  unfolding delete
  delete-HasUniqueKeys k [] u = tt
  delete-HasUniqueKeys k ((j, w) ∷ m) u =
      ground (arith, delete-HasUniqueKeys k m u.1, delete-missing j k m u.0)

  sweep-missing :
      (drop : V → Bool) (k : String) (m : List (String × V))
      → HasUniqueKeys m
      → lookup k m ≡ none
      → lookup k (sweep drop m).1 ≡ none
  sweep-missing drop k m u h = rw (lookup-sweep drop k m u, h) refl

  pub sweep-HasUniqueKeys :
      (drop : V → Bool) (m : List (String × V)) → HasUniqueKeys m → HasUniqueKeys (sweep drop m).1
  unfolding sweep
  sweep-HasUniqueKeys drop [] u = tt
  sweep-HasUniqueKeys drop ((j, w) ∷ m) u =
      ground (arith, sweep-HasUniqueKeys drop m u.1, sweep-missing drop j m u.1 u.0)

  -- The count of a sweep is what the table loses.
  pub length-sweep :
      (drop : V → Bool) (m : List (String × V))
      → (sweep drop m).0 + length (sweep drop m).1 ≡ length m
  unfolding sweep
  length-sweep drop [] = omega arith
  length-sweep drop ((j, v) ∷ m) = ground (arith, length-sweep drop m)
