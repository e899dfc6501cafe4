-- ===== src/Adr036/Sorting.antt =====
-- The SDK's `SortJSON`, which facilitator/adr036.go calls: what it makes of a JSON value. It reads a
-- text into maps and writes the maps again, with their keys in order.
use cosmos_pay.Prelude.{
  ℕ, ◌^◌, String, ◌≡◌, Bool, true, false, not, ◌==◌, ◌&&◌, ◌||◌, List, [], ◌∷◌, eqb, ltb, leb,
  if◌then◌else◌,
}
use cosmos_pay.Prelude.Text.{codes}
use cosmos_pay.Errors.{ok}
use cosmos_pay.Encoding.Json.{
  Json, Items, Members, null, str, num, neg, bool, arr, obj, nil, cons, end, member, print,
}
use cosmos_pay.Adr036.{SignLib, Bytes}

abbrev pub codes_before : List ℕ → List ℕ → Bool
codes_before [] _ = true
codes_before (c ∷ s) [] = false
codes_before (c ∷ s) (d ∷ t) = if eqb c d then codes_before s t else ltb c d

unfoldable pub insert_member : String → Json → Members → Members
insert_member k v end = member k v end
insert_member k v (member j w ms) =
    let rest = insert_member k v ms in
    if codes_before (codes k) (codes j) then member k v (member j w ms) else member j w rest

-- the value with the members of every object in the order of their keys
unfoldable mutual
  unfolding insert_member

  pub sorted : Json → Json
  sorted null = null
  sorted (str s) = str s
  sorted (num n) = num n
  sorted (neg n) = neg n
  sorted (bool b) = bool b
  sorted (arr xs) = arr (sorted_items xs)
  sorted (obj ms) = obj (sorted_members ms)

  pub sorted_items : Items → Items
  sorted_items nil = nil
  sorted_items (cons x xs) = cons (sorted x) (sorted_items xs)

  pub sorted_members : Members → Members
  sorted_members end = end
  sorted_members (member k v ms) = insert_member k (sorted v) (sorted_members ms)

unfoldable pub has_key : String → Members → Bool
has_key k end = false
has_key k (member j v ms) = j == k || has_key k ms

-- No object has a key twice, and float64 holds every number.
unfoldable mutual
  unfolding has_key

  pub is_plain : Json → Bool
  is_plain null = true
  is_plain (str s) = true
  is_plain (num n) = leb n (2 ^ 53)
  is_plain (neg n) = leb n (2 ^ 53)
  is_plain (bool b) = true
  is_plain (arr xs) = plain_items xs
  is_plain (obj ms) = plain_members ms

  pub plain_items : Items → Bool
  plain_items nil = true
  plain_items (cons x xs) = is_plain x && plain_items xs

  pub plain_members : Members → Bool
  plain_members end = true
  plain_members (member k v ms) = not (has_key k ms) && is_plain v && plain_members ms

-- What is relied on of `SortJSON`: where it succeeds on the JSON of such a value, it writes the value
-- with its keys in order.
pub record SortsJson (lib : SignLib) : Type 0 where
  pub sorts :
      (j : Json) (x : Bytes)
      → is_plain j ≡ true
      → lib.sort_json (print j) ≡ ok x
      → x ≡ print (sorted j)
