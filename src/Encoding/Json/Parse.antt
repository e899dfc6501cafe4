-- ===== src/Encoding/Json/Parse.antt =====
-- json.Unmarshal and json.Decoder of Go's encoding/json, up to the value that is read. The limit on
-- the nesting, 10000, is not modelled, and every syntax error has one text.
pub mod Printed
pub mod Steps
pub mod Laws
pub mod Leaves
pub mod Fuel
use cosmos_pay.Prelude.{
  ℕ, zero, suc, ◌+◌, ◌*◌, String, Bool, true, false, ◌||◌, List, [], ◌∷◌, eqb, if◌then◌else◌,
  length,
}
use cosmos_pay.Errors.{plain, Result, ok, err}
use cosmos_pay.Encoding.Json.Value.{
  Value, Values, Fields, null, bool, number, text, array, object, no_values, value, no_fields,
  field, Parsed, done, bad, spent, ◌>>=◌, Parser, skip_space,
}
use cosmos_pay.Encoding.Json.Text.{read_text}
use cosmos_pay.Encoding.Json.Number.{is_digit, read_number}

-- the bytes of a word, then `v`
abbrev pub expect_word : List ℕ → Value → Parser Value
expect_word [] v s = done (v, s)
expect_word (c ∷ l) v [] = bad
expect_word (c ∷ l) v (d ∷ s) = if eqb c d then expect_word l v s else bad

-- one byte
abbrev pub expect_first : ℕ → Parser (Unit {0})
expect_first c [] = bad
expect_first c (d ∷ s) = if eqb c d then done (tt, s) else bad

-- one byte, behind white space
abbrev pub expect : ℕ → Parser (Unit {0})
expect c s = expect_first c (skip_space s)

-- What a value begins with, behind white space.
pub data Start : Type 0 where
  starts_text starts_array starts_object starts_number starts_true starts_false starts_null : Start
  starts_nothing : Start

unfoldable pub start_of : List ℕ → Start
start_of [] = starts_nothing
start_of (c ∷ s) =
    if eqb c b'"'
    then starts_text
    else if eqb c b'['
    then starts_array
    else if eqb c b'{'
    then starts_object
    else if is_digit c || eqb c b'-'
    then starts_number
    else if eqb c b't'
    then starts_true
    else if eqb c b'f'
    then starts_false
    else if eqb c b'n'
    then starts_null
    else starts_nothing

abbrev pub rest_of : List ℕ → List ℕ
rest_of [] = []
rest_of (c ∷ s) = s

abbrev pub is_next : ℕ → List ℕ → Bool
is_next c [] = false
is_next c (d ∷ s) = eqb c d

abbrev pub read_key : Parser String
read_key s = do (_, s₁) ← expect b'"' s; read_text s₁

unfoldable mutual
  -- one value, behind white space
  pub parse_value : ℕ → Parser Value
  parse_value zero s = spent
  parse_value (suc f) s = elim (start_of (skip_space s)) [
    | starts_text ↦ do (t, s₁) ← read_text (rest_of (skip_space s)); done (text t, s₁)
    | starts_array ↦ do (vs, s₁) ← parse_items f (rest_of (skip_space s)); done (array vs, s₁)
    | starts_object ↦ do (fs, s₁) ← parse_members f (rest_of (skip_space s)); done (object fs, s₁)
    | starts_number ↦ do (l, s₁) ← read_number (skip_space s); done (number l, s₁)
    | starts_true ↦ expect_word (b't' ∷ b'r' ∷ b'u' ∷ b'e' ∷ []) (bool true) (skip_space s)
    | starts_false ↦ expect_word (b'f' ∷ b'a' ∷ b'l' ∷ b's' ∷ b'e' ∷ []) (bool false) (skip_space s)
    | starts_null ↦ expect_word (b'n' ∷ b'u' ∷ b'l' ∷ b'l' ∷ []) null (skip_space s)
    | starts_nothing ↦ bad
  ]

  -- after an opening bracket
  pub parse_items : ℕ → Parser Values
  parse_items zero s = spent
  parse_items (suc f) s = elim (is_next b']' (skip_space s)) [
    | true ↦ done (no_values, rest_of (skip_space s))
    | false ↦ parse_more_items f s
  ]

  -- one element at least
  pub parse_more_items : ℕ → Parser Values
  parse_more_items zero s = spent
  parse_more_items (suc f) s = do
    (v, s₁) ← parse_value f s
    elim (is_next b',' (skip_space s₁)) [
      | true ↦ do (vs, s₂) ← parse_more_items f (rest_of (skip_space s₁)); done (value v vs, s₂)
      | false ↦ do (_, s₂) ← expect b']' s₁; done (value v no_values, s₂)
    ]

  -- after an opening brace
  pub parse_members : ℕ → Parser Fields
  parse_members zero s = spent
  parse_members (suc f) s = elim (is_next b'}' (skip_space s)) [
    | true ↦ done (no_fields, rest_of (skip_space s))
    | false ↦ parse_more_members f s
  ]

  -- one member at least
  pub parse_more_members : ℕ → Parser Fields
  parse_more_members zero s = spent
  parse_more_members (suc f) s = do
    (k, s₁) ← read_key s
    (_, s₂) ← expect b':' s₁
    (v, s₃) ← parse_value f s₂
    elim (is_next b',' (skip_space s₃)) [
      | true ↦ do (fs, s₄) ← parse_more_members f (rest_of (skip_space s₃)); done (field k v fs, s₄)
      | false ↦ do (_, s₄) ← expect b'}' s₃; done (field k v no_fields, s₄)
    ]

-- enough fuel for the bytes
abbrev pub fuel_for : List ℕ → ℕ
fuel_for s = 3 * length s + 1

abbrev pub syntax_error {ℓ} : {A : Type ℓ} → Result A
syntax_error = err (plain "invalid JSON")

abbrev whole : Value → List ℕ → Result Value
whole v [] = ok v
whole v (c ∷ s) = syntax_error

-- json.Unmarshal: one value, and nothing but white space behind it
unfoldable pub unmarshal : List ℕ → Result Value
unmarshal s = elim (parse_value (fuel_for s) s) [
  | done (v, rest) ↦ whole v (skip_space rest)
  | bad ↦ syntax_error
  | spent ↦ syntax_error
]

-- json.NewDecoder(r).Decode: the first value
unfoldable pub decode_first : List ℕ → Result Value
decode_first s = elim (parse_value (fuel_for s) s) [
  | done (v, rest) ↦ ok v
  | bad ↦ syntax_error
  | spent ↦ syntax_error
]
