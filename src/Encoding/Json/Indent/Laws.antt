-- ===== src/Encoding/Json/Indent/Laws.antt =====
-- Reading what json.MarshalIndent wrote.
use cosmos_pay.Prelude.{
  ℕ, zero, suc, ◌+◌, ◌*◌, ◌<◌, ◌≡◌, refl, ap, ◌∙◌, String, true, List, ◌∷◌, ◌++◌, arith, length,
  length-append,
}
use cosmos_pay.Prelude.Text.{codes}
use cosmos_pay.Errors.{ok}
use cosmos_pay.Encoding.Json.{
  Json, Items, Members, null, str, num, neg, bool, arr, obj, nil, cons, end, member, escape_all,
  print,
}
use cosmos_pay.Encoding.Json.Value.{done, value, field}
use cosmos_pay.Encoding.Json.Text.Laws.{read_text-escape_all}
use cosmos_pay.Encoding.Json.Number.Laws.{stops}
use cosmos_pay.Encoding.Json.Parse.{
  parse_value, parse_more_items, parse_more_members, decode_first, fuel_for,
}
use cosmos_pay.Encoding.Json.Parse.Laws.{
  value_of, values_of, fields_of, reads_value, decode_first_done,
}
use cosmos_pay.Encoding.Json.Indent.{line, print_at, print_more, print_others, marshal_indent}
use cosmos_pay.Encoding.Json.Indent.Texts.{
  empty_array, empty_object, quote_opens, no_more, no_others, array_text, object_text, more_text,
  others_text, array_size, object_size, more_size, others_size, closes,
}
use cosmos_pay.Encoding.Json.Indent.Steps.{
  last_item_spaced, next_item_spaced, last_member_spaced, next_member_spaced, array_spaced,
  object_spaced,
}
use cosmos_pay.Encoding.Json.Indent.Shape.{skip_space-line, value_opens_at, print_at_pos}

-- With more fuel than three times its bytes, a value reads back in front of what stops a number.
abbrev ReadsAt : Json → Type 0
ReadsAt v =
    (d f : ℕ) (rest : List ℕ)
    → 3 * length (print_at d v) < f
    → stops rest ≡ true
    → parse_value f (print_at d v ++ rest) ≡ done (value_of v, rest)

abbrev ReadsMore : Json → Items → Type 0
ReadsMore x xs =
    (d e f : ℕ) (rest : List ℕ)
    → 3 * length (print_at d x) + 3 * length (print_more d xs) + 1 < f
    → parse_more_items f (print_at d x ++ (print_more d xs ++ (line e ++ b']' ∷ rest)))
      ≡ done (value (value_of x) (values_of xs), rest)

abbrev ReadsOthers : String → Json → Members → Type 0
ReadsOthers k v ms =
    (d e f : ℕ) (rest : List ℕ)
    → 3 * length (print_at d v) + 3 * length (print_others d ms) + 1 < f
    → parse_more_members f (
        b'"'
        ∷ (escape_all (codes k)
            ++ b'"'
              ∷ b':'
              ∷ b' '
              ∷ (print_at d v ++ (print_others d ms ++ (line e ++ b'}' ∷ rest)))))
      ≡ done (field k (value_of v) (fields_of ms), rest)

-- A value with no parts is written as json.Marshal does.
reads_plain :
    (v : Json) (d f : ℕ) (rest : List ℕ)
    → print_at d v ≡ print v
    → 3 * length (print_at d v) < f
    → stops rest ≡ true
    → parse_value f (print_at d v ++ rest) ≡ done (value_of v, rest)
reads_plain v d f rest same h k = rw same (reads_value v f rest (rw same at h) k)

mutual
  unfolding value_of print_at

  reads_at : (v : Json) → ReadsAt v
  reads_at v d zero rest h k = absurd (omega arith)
  reads_at v d (suc zero) rest h k = absurd (omega (arith, print_at_pos d v))
  reads_at null d (suc (suc f)) rest h k = reads_plain null d (suc (suc f)) rest refl h k
  reads_at (str s) d (suc (suc f)) rest h k = reads_plain (str s) d (suc (suc f)) rest refl h k
  reads_at (num n) d (suc (suc f)) rest h k = reads_plain (num n) d (suc (suc f)) rest refl h k
  reads_at (neg n) d (suc (suc f)) rest h k = reads_plain (neg n) d (suc (suc f)) rest refl h k
  reads_at (bool b) d (suc (suc f)) rest h k = reads_plain (bool b) d (suc (suc f)) rest refl h k
  reads_at (arr nil) d (suc (suc f)) rest h k = empty_array d f rest
  reads_at (arr (cons x xs)) d (suc (suc f)) rest h k =
      ap (parse_value (suc (suc f))) (array_text d x xs rest)
      ∙ array_spaced (suc d) f _ rest _ (value_opens_at (suc d) x _)
          (reads_more xs x (reads_at x) (suc d) d f rest (omega (arith, array_size d x xs)))
  reads_at (obj end) d (suc (suc f)) rest h k = empty_object d f rest
  reads_at (obj (member key v ms)) d (suc (suc f)) rest h k =
      ap (parse_value (suc (suc f))) (object_text d key v ms rest)
      ∙ object_spaced (suc d) f _ rest _ (quote_opens _) (
          reads_others ms key v (reads_at v) (suc d) d f rest
            (omega (arith, object_size d key v ms)))

  reads_more : (xs : Items) (x : Json) → ReadsAt x → ReadsMore x xs
  reads_more xs x reads d e zero rest h = absurd (omega arith)
  reads_more nil x reads d e (suc f) rest h =
      ap (λ t. parse_more_items (suc f) (print_at d x ++ t)) (no_more d _)
      ∙ last_item_spaced f _ (line e ++ b']' ∷ rest) rest (value_of x)
          (reads d f (line e ++ b']' ∷ rest) (omega arith) refl) (closes b']' e rest refl)
  reads_more (cons y ys) x reads d e (suc f) rest h =
      let size = more_size d y ys in
      ap (λ t. parse_more_items (suc f) (print_at d x ++ t)) (more_text d e y ys rest)
      ∙ next_item_spaced f _ _ _ rest (value_of x) _ (reads d f (b',' ∷ _) (omega arith) refl)
          (skip_space-line d _)
          (reads_more ys y (reads_at y) d e f rest (omega (arith, size, print_at_pos d x)))

  reads_others : (ms : Members) (key : String) (v : Json) → ReadsAt v → ReadsOthers key v ms
  reads_others ms key v reads d e zero rest h = absurd (omega arith)
  reads_others end key v reads d e (suc f) rest h =
      ap
        (λ t.
          parse_more_members (suc f)
            (b'"' ∷ (escape_all (codes key) ++ b'"' ∷ b':' ∷ b' ' ∷ (print_at d v ++ t))))
        (no_others d _)
      ∙ last_member_spaced f _ _ (line e ++ b'}' ∷ rest) rest key (value_of v)
          (read_text-escape_all key _) (reads d f (line e ++ b'}' ∷ rest) (omega arith) refl)
          (closes b'}' e rest refl)
  reads_others (member j w ms) key v reads d e (suc f) rest h =
      let size = others_size d j w ms in
      ap
        (λ t.
          parse_more_members (suc f)
            (b'"' ∷ (escape_all (codes key) ++ b'"' ∷ b':' ∷ b' ' ∷ (print_at d v ++ t))))
        (others_text d e j w ms rest)
      ∙ next_member_spaced f _ _ _ _ rest key (value_of v) _ (read_text-escape_all key _)
          (reads d f (b',' ∷ _) (omega arith) refl) (skip_space-line d _)
          (reads_others ms j w (reads_at w) d e f rest (omega (arith, size, print_at_pos d v)))

-- The decoder reads indented JSON, in front of anything that ends a number, as what was written.
pub decode_first-marshal_indent :
    (v : Json) (rest : List ℕ)
    → stops rest ≡ true
    → decode_first (marshal_indent v ++ rest) ≡ ok (value_of v)
decode_first-marshal_indent v rest h =
    let size = length-append (print_at 0 v) rest in
    decode_first_done (marshal_indent v ++ rest) rest (value_of v)
      (reads_at v 0 (fuel_for (marshal_indent v ++ rest)) rest (omega (arith, size)) h)
