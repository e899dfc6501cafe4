-- ===== src/Types/Decode/Members.antt =====
-- Reading the members of a struct that json.Marshal wrote, one at a time.
use cosmos_pay.Prelude.{
  ℕ, ◌<◌, String, ◌==◌, ◌≡◌, refl, eq_iff, List, [], ◌∷◌, ◌++◌, arith, Bool-cases, inl, inr, eqb,
  ltb,
}
use cosmos_pay.Prelude.Words.{word, half_word}
use cosmos_pay.Errors.{Result, ok}
use cosmos_pay.Types.Tags.{text_unless_empty, num_unless_zero, int_json}
use cosmos_pay.Encoding.Json.{Json, num, obj, members}
use cosmos_pay.Encoding.Json.Value.{Value, text}
use cosmos_pay.Encoding.Json.Number.Laws.{parse_uint-decimal, parse_int-decimal, parse_int-minus}
use cosmos_pay.Encoding.Json.Parse.Laws.{value_of, fields_of}
use cosmos_pay.Encoding.Json.Struct.{read_uint, read_int, read_fields, read_struct}

pub read_uint-num : (limit n old : ℕ) → n < limit → read_uint limit (value_of (num n)) old ≡ ok n
unfolding read_uint value_of
read_uint-num limit n old h = rw (parse_uint-decimal limit n h) refl

pub read_int-int_json : (n old : ℕ) → n < word → read_int (value_of (int_json n)) old ≡ ok n
unfolding read_int value_of
read_int-int_json n old h = elim (Bool-cases (ltb n half_word)) [
  | inl small ↦ rw (small, parse_int-decimal n (ground arith)) refl
  | inr large ↦ rw (large, parse_int-minus n (ground arith) h) refl
]

module _ {ℓ} {A : Type ℓ} (set : String → Value → A → Result A) where
  -- The members `ms` bring `a` to `b`.
  abbrev pub Sets : List (String × Json) → A → A → Type ℓ
  Sets ms a b = read_fields set (fields_of (members ms)) a ≡ ok b

  pub put_nothing : (a : A) → Sets [] a a
  unfolding read_fields value_of
  put_nothing a = refl

  pub put_member :
      (k : String) (v : Json) (ms : List (String × Json)) (a b c : A)
      → set k (value_of v) a ≡ ok b
      → Sets ms b c
      → Sets ((k, v) ∷ ms) a c
  unfolding read_fields value_of
  put_member k v ms a b c h rest = rw h rest

  -- a text with `omitempty`, where the empty text is what the variable held
  pub put_text :
      (k t : String) (ms : List (String × Json)) (with_text : String → A) (c : A)
      → set k (text t) (with_text "") ≡ ok (with_text t)
      → Sets ms (with_text t) c
      → Sets (text_unless_empty k t ++ ms) (with_text "") c
  unfolding read_fields value_of
  put_text k t ms with_text c h rest = elim (Bool-cases (t == "")) [
    | inl empty ↦
        (let no_text : t ≡ "" = ground (arith, eq_iff t "") in rw empty (rw no_text at rest))
    | inr full ↦ rw full (rw h rest)
  ]

  -- the same for the last member
  pub put_last_text :
      (k t : String) (with_text : String → A)
      → set k (text t) (with_text "") ≡ ok (with_text t)
      → Sets (text_unless_empty k t) (with_text "") (with_text t)
  unfolding read_fields value_of
  put_last_text k t with_text h = elim (Bool-cases (t == "")) [
    | inl empty ↦ (let no_text : t ≡ "" = ground (arith, eq_iff t "") in rw empty (rw no_text refl))
    | inr full ↦ rw full (rw h refl)
  ]

  pub put_num :
      (k : String) (n : ℕ) (ms : List (String × Json)) (with_num : ℕ → A) (c : A)
      → set k (value_of (num n)) (with_num 0) ≡ ok (with_num n)
      → Sets ms (with_num n) c
      → Sets (num_unless_zero k n ++ ms) (with_num 0) c
  unfolding read_fields value_of
  put_num k n ms with_num c h rest = elim (Bool-cases (eqb n 0)) [
    | inl empty ↦ (let zero_n : n ≡ 0 = ground arith in rw empty (rw zero_n at rest))
    | inr full ↦ rw full (rw h rest)
  ]

  pub put_struct :
      (ms : List (String × Json)) (a b : A)
      → Sets ms a b
      → read_struct set (value_of (obj (members ms))) a ≡ ok b
  unfolding read_struct value_of
  put_struct ms a b h = h
