-- ===== src/Encoding/Json/Indent.antt =====
-- json.MarshalIndent of Go's encoding/json with an empty prefix and two spaces for a level.
pub mod Shape
pub mod Texts
pub mod Steps
pub mod Laws
use cosmos_pay.Prelude.{◌≡◌, refl, ℕ, zero, suc, String, List, [], ◌∷◌, ◌++◌}
use cosmos_pay.Prelude.Text.{codes}
use cosmos_pay.Encoding.Json.{
  items, members, decimal, Json, Items, Members, null, str, num, neg, bool, arr, obj, nil, cons,
  end, member, quoted, print,
}

abbrev spaces : ℕ → List ℕ
spaces zero = []
spaces (suc d) = b' ' ∷ b' ' ∷ spaces d

-- a line break, and the indentation of a level
abbrev pub line : ℕ → List ℕ
line d = 10 ∷ spaces d

-- a value at a level; an empty array or object has no line of its own
unfoldable mutual
  unfolding print

  pub print_at : ℕ → Json → List ℕ
  print_at d null = print null
  print_at d (str s) = print (str s)
  print_at d (num n) = print (num n)
  print_at d (neg n) = print (neg n)
  print_at d (bool b) = print (bool b)
  print_at d (arr xs) = b'[' ∷ (print_inside d xs ++ b']' ∷ [])
  print_at d (obj ms) = b'{' ∷ (print_within d ms ++ b'}' ∷ [])

  -- the elements of an array at a level, to the line of its bracket
  pub print_inside : ℕ → Items → List ℕ
  print_inside d nil = []
  print_inside d (cons x xs) =
      line (suc d) ++ (print_at (suc d) x ++ (print_more (suc d) xs ++ line d))

  pub print_more : ℕ → Items → List ℕ
  print_more d nil = []
  print_more d (cons x xs) = b',' ∷ (line d ++ (print_at d x ++ print_more d xs))

  -- the members of an object at a level, to the line of its brace
  pub print_within : ℕ → Members → List ℕ
  print_within d end = []
  print_within d (member k v ms) =
      line (suc d)
      ++ (quoted k ++ b':' ∷ b' ' ∷ (print_at (suc d) v ++ (print_others (suc d) ms ++ line d)))

  pub print_others : ℕ → Members → List ℕ
  print_others d end = []
  print_others d (member k v ms) =
      b',' ∷ (line d ++ (quoted k ++ b':' ∷ b' ' ∷ (print_at d v ++ print_others d ms)))

abbrev pub marshal_indent : Json → List ℕ
marshal_indent v = print_at 0 v

indent_check :
    marshal_indent (
      obj (
        members
          (("a", num 1) ∷ ("b", arr (items (str "x" ∷ null ∷ []))) ∷ ("c", obj (members [])) ∷ [])))
    ≡ codes "{\n  \"a\": 1,\n  \"b\": [\n    \"x\",\n    null\n  ],\n  \"c\": {}\n}"
unfolding print_at print decimal
indent_check = refl
