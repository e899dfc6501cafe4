-- ===== src/Encoding/Json/Parse/Steps.antt =====
-- One step of the parser, given what its parts read.
use cosmos_pay.Prelude.{ℕ, suc, ◌≡◌, refl, String, true, false, List, ◌∷◌, ◌++◌, arith}
use cosmos_pay.Encoding.Json.{decimal}
use cosmos_pay.Encoding.Json.Value.{
  Value, Values, Fields, number, array, object, no_values, value, no_fields, field, done,
  skip_space,
}
use cosmos_pay.Encoding.Json.Text.{read_text}
use cosmos_pay.Encoding.Json.Number.{read_number, is_digit}
use cosmos_pay.Encoding.Json.Number.Laws.{stops, first_digit, read_number-decimal}
use cosmos_pay.Encoding.Json.Parse.{
  start_of, is_next, parse_value, parse_more_items, parse_more_members,
}

parse_digits :
    (d f : ℕ) (ds rest : List ℕ) (l : List ℕ)
    → is_digit d ≡ true
    → read_number (d ∷ ds) ≡ done (l, rest)
    → parse_value (suc f) (d ∷ ds) ≡ done (number l, rest)
unfolding parse_value skip_space start_of
parse_digits d f ds rest l h e = ground (arith, e)

pub parse_number :
    (n f : ℕ) (rest : List ℕ)
    → stops rest ≡ true
    → parse_value (suc f) (decimal n ++ rest) ≡ done (number (decimal n), rest)
parse_number n f rest h =
    let (d, ds, shape, digit) = first_digit n in
    let (plain, minus) = read_number-decimal n rest h in
    rw shape (parse_digits d f (ds ++ rest) rest (d ∷ ds) digit (rw shape at plain))

pub parse_minus :
    (n f : ℕ) (rest : List ℕ)
    → stops rest ≡ true
    → parse_value (suc f) (b'-' ∷ (decimal n ++ rest)) ≡ done (number (b'-' ∷ decimal n), rest)
unfolding parse_value skip_space start_of
parse_minus n f rest h = rw ((read_number-decimal n rest h).1) refl

pub parse_array :
    (f : ℕ) (s rest : List ℕ) (vs : Values)
    → is_next b']' (skip_space s) ≡ false
    → parse_more_items f s ≡ done (vs, rest)
    → parse_value (suc (suc f)) (b'[' ∷ s) ≡ done (array vs, rest)
unfolding parse_value skip_space start_of
parse_array f s rest vs h e = rw (h, e) refl

pub parse_object :
    (f : ℕ) (s rest : List ℕ) (fs : Fields)
    → is_next b'}' (skip_space s) ≡ false
    → parse_more_members f s ≡ done (fs, rest)
    → parse_value (suc (suc f)) (b'{' ∷ s) ≡ done (object fs, rest)
unfolding parse_value skip_space start_of
parse_object f s rest fs h e = rw (h, e) refl

pub last_item :
    (f : ℕ) (s rest : List ℕ) (v : Value)
    → parse_value f s ≡ done (v, b']' ∷ rest)
    → parse_more_items (suc f) s ≡ done (value v no_values, rest)
unfolding parse_value skip_space
last_item f s rest v e = rw e refl

pub next_item :
    (f : ℕ) (s t rest : List ℕ) (v : Value) (vs : Values)
    → parse_value f s ≡ done (v, b',' ∷ t)
    → parse_more_items f t ≡ done (vs, rest)
    → parse_more_items (suc f) s ≡ done (value v vs, rest)
unfolding parse_value skip_space
next_item f s t rest v vs e e' = rw (e, e') refl

pub last_member :
    (f : ℕ) (s t rest : List ℕ) (k : String) (v : Value)
    → read_text s ≡ done (k, b':' ∷ t)
    → parse_value f t ≡ done (v, b'}' ∷ rest)
    → parse_more_members (suc f) (b'"' ∷ s) ≡ done (field k v no_fields, rest)
unfolding parse_value skip_space
last_member f s t rest k v e e' = rw (e, e') refl

pub next_member :
    (f : ℕ) (s t u rest : List ℕ) (k : String) (v : Value) (fs : Fields)
    → read_text s ≡ done (k, b':' ∷ t)
    → parse_value f t ≡ done (v, b',' ∷ u)
    → parse_more_members f u ≡ done (fs, rest)
    → parse_more_members (suc f) (b'"' ∷ s) ≡ done (field k v fs, rest)
unfolding parse_value skip_space
next_member f s t u rest k v fs e e' e'' = rw (e, e', e'') refl
