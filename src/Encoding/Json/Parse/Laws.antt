-- ===== src/Encoding/Json/Parse/Laws.antt =====
-- Reading what json.Marshal wrote.
use mathlib.Core.List.{append_assoc, append-nil}
use cosmos_pay.Prelude.{
  ℕ, zero, suc, ◌+◌, ◌*◌, ◌<◌, ◌≡◌, refl, ap, ◌∙◌, String, true, false, List, [], ◌∷◌, ◌++◌, arith,
  length, length-append,
}
use cosmos_pay.Errors.{ok}
use cosmos_pay.Encoding.Json
use cosmos_pay.Encoding.Json.{
  Json, Items, Members, escape_all, decimal, quoted, print, print_items, print_members,
}
use cosmos_pay.Encoding.Json.Value.{
  Value, Values, Fields, null, bool, number, text, array, object, no_values, value, no_fields,
  field, done, skip_space,
}
use cosmos_pay.Encoding.Json.Text.Laws.{read_text-escape_all}
use cosmos_pay.Encoding.Json.Number.Laws.{stops}
use cosmos_pay.Encoding.Json.Parse.Printed.{
  print_pos, items_open, members_open, array_text, object_text, member_end_text, member_text,
  member_end_size, member_size,
}
use cosmos_pay.Encoding.Json.Parse.Steps.{
  parse_number, parse_minus, parse_array, parse_object, last_item, next_item, last_member,
  next_member,
}
use cosmos_pay.Encoding.Json.Parse.{
  start_of, parse_value, parse_more_items, parse_more_members, unmarshal, decode_first, fuel_for,
}

-- what a JSON value is read as
unfoldable mutual
  pub value_of : Json → Value
  value_of Json.null = null
  value_of (Json.str s) = text s
  value_of (Json.num n) = number (decimal n)
  value_of (Json.neg n) = number (b'-' ∷ decimal n)
  value_of (Json.bool b) = bool b
  value_of (Json.arr xs) = array (values_of xs)
  value_of (Json.obj ms) = object (fields_of ms)

  pub values_of : Items → Values
  values_of Json.nil = no_values
  values_of (Json.cons x xs) = value (value_of x) (values_of xs)

  pub fields_of : Members → Fields
  fields_of Json.end = no_fields
  fields_of (Json.member k v ms) = field k (value_of v) (fields_of ms)

-- With more fuel than three times its bytes, a value reads back in front of what stops a number.
abbrev pub ReadsValue : Json → Type 0
ReadsValue v =
    (f : ℕ) (rest : List ℕ)
    → 3 * length (print v) < f
    → stops rest ≡ true
    → parse_value f (print v ++ rest) ≡ done (value_of v, rest)

abbrev ReadsItems : Json → Items → Type 0
ReadsItems x xs =
    (f : ℕ) (rest : List ℕ)
    → 3 * length (print_items (Json.cons x xs)) + 1 < f
    → parse_more_items f (print_items (Json.cons x xs) ++ b']' ∷ rest)
      ≡ done (value (value_of x) (values_of xs), rest)

abbrev ReadsMembers : String → Json → Members → Type 0
ReadsMembers k v ms =
    (f : ℕ) (rest : List ℕ)
    → 3 * length (print_members (Json.member k v ms)) + 1 < f
    → parse_more_members f (print_members (Json.member k v ms) ++ b'}' ∷ rest)
      ≡ done (field k (value_of v) (fields_of ms), rest)

mutual
  unfolding parse_value print value_of skip_space start_of

  pub reads_value : (v : Json) → ReadsValue v
  reads_value v zero rest h k = absurd (omega arith)
  reads_value v (suc zero) rest h k = absurd (omega (arith, print_pos v))
  reads_value Json.null (suc (suc f)) rest h k = refl
  reads_value (Json.str s) (suc (suc f)) rest h k =
      rw append_assoc (rw (read_text-escape_all s rest) refl)
  reads_value (Json.num n) (suc (suc f)) rest h k = parse_number n (suc f) rest k
  reads_value (Json.neg n) (suc (suc f)) rest h k = parse_minus n (suc f) rest k
  reads_value (Json.bool true) (suc (suc f)) rest h k = refl
  reads_value (Json.bool false) (suc (suc f)) rest h k = refl
  reads_value (Json.arr Json.nil) (suc (suc f)) rest h k = refl
  reads_value (Json.arr (Json.cons x xs)) (suc (suc f)) rest h k =
      rw (array_text (Json.cons x xs) rest) (
        parse_array f _ rest _ (items_open x xs (b']' ∷ rest)) (
          reads_items xs x (reads_value x) f rest
            (omega (arith, length-append (print_items (Json.cons x xs)) (b']' ∷ [])))))
  reads_value (Json.obj Json.end) (suc (suc f)) rest h k = refl
  reads_value (Json.obj (Json.member key v ms)) (suc (suc f)) rest h k =
      rw (object_text (Json.member key v ms) rest) (
        parse_object f _ rest _ (members_open key v ms (b'}' ∷ rest)) (
          reads_members ms key v (reads_value v) f rest
            (omega (arith, length-append (print_members (Json.member key v ms)) (b'}' ∷ [])))))

  reads_items : (xs : Items) (x : Json) → ReadsValue x → ReadsItems x xs
  reads_items xs x reads zero rest h = absurd (omega arith)
  reads_items Json.nil x reads (suc f) rest h =
      last_item f _ rest (value_of x) (reads f (b']' ∷ rest) (omega arith) refl)
  reads_items (Json.cons y ys) x reads (suc f) rest h =
      let size = length-append (print x) (b',' ∷ print_items (Json.cons y ys)) in
      let tail = reads_items ys y (reads_value y) f rest (omega (arith, size)) in
      rw append_assoc
        (next_item f _ _ rest (value_of x) _ (reads f (b',' ∷ _) (omega (arith, size)) refl) tail)

  reads_members : (ms : Members) (key : String) (v : Json) → ReadsValue v → ReadsMembers key v ms
  reads_members ms key v reads zero rest h = absurd (omega arith)
  reads_members Json.end key v reads (suc f) rest h =
      ap (parse_more_members (suc f)) (member_end_text key v (b'}' ∷ rest))
      ∙ (last_member f _ _ rest key (value_of v) (read_text-escape_all key _)
          (reads f (b'}' ∷ rest) (omega (arith, member_end_size key v)) refl))
  reads_members (Json.member j w ms) key v reads (suc f) rest h =
      let size = member_size key j v w ms in
      let tail = reads_members ms j w (reads_value w) f rest (omega (arith, size)) in
      ap (parse_more_members (suc f)) (member_text key j v w ms (b'}' ∷ rest))
      ∙ (next_member f _ _ _ rest key (value_of v) _ (read_text-escape_all key _)
          (reads f (b',' ∷ _) (omega (arith, size)) refl) tail)

unmarshal_done :
    (s : List ℕ) (v : Value) → parse_value (fuel_for s) s ≡ done (v, []) → unmarshal s ≡ ok v
unfolding unmarshal skip_space
unmarshal_done s v h = rw (unmarshal, h) refl

pub decode_first_done :
    (s rest : List ℕ) (v : Value)
    → parse_value (fuel_for s) s ≡ done (v, rest)
    → decode_first s ≡ ok v
unfolding decode_first
decode_first_done s rest v h = rw (decode_first, h) refl

-- What json.Marshal wrote is read as the value that was written.
pub unmarshal-print : (v : Json) → unmarshal (print v) ≡ ok (value_of v)
unmarshal-print v =
    let read = reads_value v (fuel_for (print v)) [] (omega arith) refl in
    unmarshal_done (print v) (value_of v) (rw (append-nil (print v)) at read)

-- The decoder reads a value in front of anything that ends a number, as the newline of json.Encoder.
pub decode_first-print :
    (v : Json) (rest : List ℕ)
    → stops rest ≡ true
    → decode_first (print v ++ rest) ≡ ok (value_of v)
decode_first-print v rest h =
    let size = length-append (print v) rest in
    decode_first_done (print v ++ rest) rest (value_of v)
      (reads_value v (fuel_for (print v ++ rest)) rest (omega (arith, size)) h)

pub decode_first-print_alone : (v : Json) → decode_first (print v) ≡ ok (value_of v)
decode_first-print_alone v =
    let read = decode_first-print v [] refl in rw (append-nil (print v)) at read
