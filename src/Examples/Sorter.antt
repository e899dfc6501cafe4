-- ===== src/Examples/Sorter.antt =====
-- A JSON sorter: it reads a text, puts the members of every object in the order of their keys, and
-- writes the value. Numbers keep their digits.
use cosmos_pay.Prelude.{
  ℕ, String, ◌≡◌, refl, ap, ◌∙◌, true, false, List, [], ◌∷◌, ◌++◌, if◌then◌else◌, arith, Bool-cases,
  inl, inr,
}
use mathlib.Core.Path.{ap₂}
use cosmos_pay.Prelude.Text.{codes}
use cosmos_pay.Errors.{Result, ok, err}
use cosmos_pay.Encoding.Json.{Json, Items, Members, str, print, print_items, print_members}
use cosmos_pay.Encoding.Json
use cosmos_pay.Encoding.Json.Value.{
  Value, Values, Fields, null, number, text, array, object, no_values, value, no_fields, field,
}
use cosmos_pay.Encoding.Json.Parse.{unmarshal}
use cosmos_pay.Encoding.Json.Parse.Laws.{value_of, values_of, fields_of, unmarshal-print}
use cosmos_pay.Adr036.Sorting.{codes_before, insert_member, sorted, sorted_items, sorted_members}

unfoldable insert_field : String → Value → Fields → Fields
insert_field k v no_fields = field k v no_fields
insert_field k v (field j w fs) =
    let rest = insert_field k v fs in
    if codes_before (codes k) (codes j) then field k v (field j w fs) else field j w rest

unfoldable mutual
  unfolding insert_field

  sort_value : Value → Value
  sort_value null = null
  sort_value (Value.bool b) = Value.bool b
  sort_value (number digits) = number digits
  sort_value (text s) = text s
  sort_value (array xs) = array (sort_values xs)
  sort_value (object fs) = object (sort_fields fs)

  sort_values : Values → Values
  sort_values no_values = no_values
  sort_values (value v vs) = value (sort_value v) (sort_values vs)

  sort_fields : Fields → Fields
  sort_fields no_fields = no_fields
  sort_fields (field k v fs) = insert_field k (sort_value v) (sort_fields fs)

unfoldable mutual
  write : Value → List ℕ
  write null = b'n' ∷ b'u' ∷ b'l' ∷ b'l' ∷ []
  write (Value.bool true) = b't' ∷ b'r' ∷ b'u' ∷ b'e' ∷ []
  write (Value.bool false) = b'f' ∷ b'a' ∷ b'l' ∷ b's' ∷ b'e' ∷ []
  write (number digits) = digits
  write (text s) = print (str s)
  write (array xs) = b'[' ∷ write_items xs ++ b']' ∷ []
  write (object fs) = b'{' ∷ write_fields fs ++ b'}' ∷ []

  write_items : Values → List ℕ
  write_items no_values = []
  write_items (value x no_values) = write x
  write_items (value x xs) = write x ++ b',' ∷ write_items xs

  write_fields : Fields → List ℕ
  write_fields no_fields = []
  write_fields (field k v no_fields) = print (str k) ++ b':' ∷ write v
  write_fields (field k v fs) = print (str k) ++ b':' ∷ write v ++ b',' ∷ write_fields fs

unfoldable sort_read : Result Value → Result (List ℕ)
sort_read (ok v) = ok (write (sort_value v))
sort_read (err e) = err e

pub sort_text : List ℕ → Result (List ℕ)
sort_text bytes = sort_read (unmarshal bytes)

insert_field-fields_of :
    (k : String) (v : Json) (ms : Members)
    → insert_field k (value_of v) (fields_of ms) ≡ fields_of (insert_member k v ms)
unfolding insert_field insert_member value_of
insert_field-fields_of k v Json.end = refl
insert_field-fields_of k v (Json.member j w ms) =
    let ih = insert_field-fields_of k v ms in
    elim (Bool-cases (codes_before (codes k) (codes j))) [
      | inl before ↦ ground (arith, before)
      | inr behind ↦ ground (arith, behind, ih)
    ]

mutual
  unfolding sort_value sorted value_of

  sort_value-value_of : (j : Json) → sort_value (value_of j) ≡ value_of (sorted j)
  sort_value-value_of Json.null = refl
  sort_value-value_of (Json.str s) = refl
  sort_value-value_of (Json.num n) = refl
  sort_value-value_of (Json.neg n) = refl
  sort_value-value_of (Json.bool b) = refl
  sort_value-value_of (Json.arr xs) = ap array (sort_values-values_of xs)
  sort_value-value_of (Json.obj ms) = ap object (sort_fields-fields_of ms)

  sort_values-values_of : (xs : Items) → sort_values (values_of xs) ≡ values_of (sorted_items xs)
  sort_values-values_of Json.nil = refl
  sort_values-values_of (Json.cons x xs) =
      ap₂ value (sort_value-value_of x) (sort_values-values_of xs)

  sort_fields-fields_of :
      (ms : Members) → sort_fields (fields_of ms) ≡ fields_of (sorted_members ms)
  sort_fields-fields_of Json.end = refl
  sort_fields-fields_of (Json.member k v ms) =
      ap₂ (insert_field k) (sort_value-value_of v) (sort_fields-fields_of ms)
      ∙ insert_field-fields_of k (sorted v) (sorted_members ms)

mutual
  unfolding write print value_of

  write-value_of : (j : Json) → write (value_of j) ≡ print j
  write-value_of Json.null = refl
  write-value_of (Json.str s) = refl
  write-value_of (Json.num n) = refl
  write-value_of (Json.neg n) = refl
  write-value_of (Json.bool true) = refl
  write-value_of (Json.bool false) = refl
  write-value_of (Json.arr xs) = ap (λ t. b'[' ∷ t ++ b']' ∷ []) (write_items-values_of xs)
  write-value_of (Json.obj ms) = ap (λ t. b'{' ∷ t ++ b'}' ∷ []) (write_fields-fields_of ms)

  write_items-values_of : (xs : Items) → write_items (values_of xs) ≡ print_items xs
  write_items-values_of Json.nil = refl
  write_items-values_of (Json.cons x Json.nil) = write-value_of x
  write_items-values_of (Json.cons x (Json.cons y ys)) =
      ap₂ (λ s t. s ++ b',' ∷ t) (write-value_of x) (write_items-values_of (Json.cons y ys))

  write_fields-fields_of : (ms : Members) → write_fields (fields_of ms) ≡ print_members ms
  write_fields-fields_of Json.end = refl
  write_fields-fields_of (Json.member k v Json.end) =
      ap (λ t. print (str k) ++ b':' ∷ t) (write-value_of v)
  write_fields-fields_of (Json.member k v (Json.member j w ms)) =
      ap₂ (λ s t. print (str k) ++ b':' ∷ s ++ b',' ∷ t) (write-value_of v)
        (write_fields-fields_of (Json.member j w ms))

-- The sorter writes the value with its keys in order.
pub sort_text-print : (j : Json) → sort_text (print j) ≡ ok (print (sorted j))
unfolding sort_text sort_read
sort_text-print j =
    ap sort_read (unmarshal-print j)
    ∙ ap (λ v. ok (write v)) (sort_value-value_of j)
    ∙ ap ok (write-value_of (sorted j))
