-- ===== src/Encoding/Json/Parse/Printed.antt =====
-- The shape of what json.Marshal writes: how it begins, its parts, and their sizes.
use mathlib.Core.List.{append_assoc}
use cosmos_pay.Prelude.{
  ℕ, ◌+◌, ◌<◌, ◌≤◌, ◌≡◌, refl, String, true, false, List, ◌∷◌, ◌++◌, arith, length, length-append,
}
use cosmos_pay.Prelude.Text.{codes}
use cosmos_pay.Encoding.Json
use cosmos_pay.Encoding.Json.{
  Json, Items, Members, escape_all, decimal, quoted, print, print_items, print_members,
}
use cosmos_pay.Encoding.Json.Value.{skip_space}
use cosmos_pay.Encoding.Json.Number.Laws.{first_digit}
use cosmos_pay.Encoding.Json.Parse.{is_next}

-- A value does not begin with a closing bracket.
pub value_opens : (v : Json) (s : List ℕ) → is_next b']' (skip_space (print v ++ s)) ≡ false
unfolding print skip_space
value_opens Json.null s = refl
value_opens (Json.str t) s = refl
value_opens (Json.num n) s =
    let (d, ds, shape, digit) = first_digit n in rw shape (ground (arith, digit))
value_opens (Json.neg n) s = refl
value_opens (Json.bool true) s = refl
value_opens (Json.bool false) s = refl
value_opens (Json.arr xs) s = refl
value_opens (Json.obj ms) s = refl

pub print_pos : (v : Json) → 0 < length (print v)
unfolding print
print_pos Json.null = omega arith
print_pos (Json.str t) = omega arith
print_pos (Json.num n) = let (d, ds, shape, digit) = first_digit n in rw shape (omega arith)
print_pos (Json.neg n) = omega arith
print_pos (Json.bool true) = omega arith
print_pos (Json.bool false) = omega arith
print_pos (Json.arr xs) = omega arith
print_pos (Json.obj ms) = omega arith

pub items_open :
    (x : Json) (xs : Items) (s : List ℕ)
    → is_next b']' (skip_space (print_items (Json.cons x xs) ++ s)) ≡ false
unfolding print
items_open x Json.nil s = value_opens x s
items_open x (Json.cons y ys) s = rw append_assoc (value_opens x _)

pub members_open :
    (k : String) (v : Json) (ms : Members) (s : List ℕ)
    → is_next b'}' (skip_space (print_members (Json.member k v ms) ++ s)) ≡ false
unfolding print skip_space
members_open k v Json.end s = refl
members_open k v (Json.member j w ms) s = refl

pub array_text :
    (xs : Items) (s : List ℕ) → print (Json.arr xs) ++ s ≡ b'[' ∷ (print_items xs ++ b']' ∷ s)
unfolding print
array_text xs s = simp append_assoc

pub object_text :
    (ms : Members) (s : List ℕ) → print (Json.obj ms) ++ s ≡ b'{' ∷ (print_members ms ++ b'}' ∷ s)
unfolding print
object_text ms s = simp append_assoc

pub member_end_text :
    (k : String) (v : Json) (s : List ℕ)
    → print_members (Json.member k v Json.end) ++ s
      ≡ b'"' ∷ (escape_all (codes k) ++ b'"' ∷ b':' ∷ (print v ++ s))
unfolding print
member_end_text k v s = simp append_assoc

pub member_text :
    (k j : String) (v w : Json) (ms : Members) (s : List ℕ)
    → print_members (Json.member k v (Json.member j w ms)) ++ s
      ≡ b'"'
        ∷ (escape_all (codes k)
            ++ b'"' ∷ b':' ∷ (print v ++ b',' ∷ (print_members (Json.member j w ms) ++ s)))
unfolding print
member_text k j v w ms s = simp append_assoc

pub member_end_size :
    (k : String) (v : Json)
    → length (print v) + 3 ≤ length (print_members (Json.member k v Json.end))
unfolding print
member_end_size k v = grind (arith, length-append {A = ℕ})

pub member_size :
    (k j : String) (v w : Json) (ms : Members)
    → length (print v) + length (print_members (Json.member j w ms)) + 4
      ≤ length (print_members (Json.member k v (Json.member j w ms)))
unfolding print
member_size k j v w ms = grind (arith, length-append {A = ℕ})
