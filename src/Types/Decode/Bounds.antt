-- ===== src/Types/Decode/Bounds.antt =====
-- What is decoded has integers of the width of their types.
use cosmos_pay.Prelude.{ℕ, ◌<◌, ◌≡◌, sym, String, some, List, [], ◌∷◌, arith, inl, inr}
use cosmos_pay.Prelude.Words.{word, half_word}
use cosmos_pay.Errors.{Result, ok, Result-cases}
use cosmos_pay.Types.{Authorization, CosmosPayload, PaymentPayload}
use cosmos_pay.Encoding.Json.Value.{
  Value, Fields, null, bool, number, text, array, object, no_fields, field,
}
use cosmos_pay.Encoding.Json.Number.{parse_uint, parse_int}
use cosmos_pay.Encoding.Json.Parse.{unmarshal}
use cosmos_pay.Encoding.Json.Struct.{read_uint, read_int, read_fields, read_struct}
use cosmos_pay.Types.Decode.{
  Bytes, set_authorization, set_cosmos_payload, set_payload, unmarshal_payload,
}
use cosmos_pay.Types.Decode.Zero.{zero_payload}
use cosmos_pay.Types.Decode.Laws.{TimesFit, PayloadFits}

parse_uint_lt : (limit n : ℕ) (l : List ℕ) → parse_uint limit l ≡ some n → n < limit
unfolding parse_uint
parse_uint_lt limit n l h = ground (arith, h)

parse_int_lt : (n : ℕ) (l : List ℕ) → parse_int l ≡ some n → n < word
unfolding parse_int
parse_int_lt n [] h = ground (arith, h)
parse_int_lt n (c ∷ l) h = ground (arith, h, parse_uint_lt half_word n (c ∷ l))

pub read_uint_lt :
    (limit n old : ℕ) (v : Value) → read_uint limit v old ≡ ok n → old < limit → n < limit
unfolding read_uint
read_uint_lt limit n old null h k = ground (arith, h)
read_uint_lt limit n old (bool b) h k = ground (arith, h)
read_uint_lt limit n old (number l) h k = ground (arith, h, parse_uint_lt limit n l)
read_uint_lt limit n old (text s) h k = ground (arith, h)
read_uint_lt limit n old (array vs) h k = ground (arith, h)
read_uint_lt limit n old (object fs) h k = ground (arith, h)

pub read_int_lt : (n old : ℕ) (v : Value) → read_int v old ≡ ok n → old < word → n < word
unfolding read_int
read_int_lt n old null h k = ground (arith, h)
read_int_lt n old (bool b) h k = ground (arith, h)
read_int_lt n old (number l) h k = ground (arith, h, parse_int_lt n l)
read_int_lt n old (text s) h k = ground (arith, h)
read_int_lt n old (array vs) h k = ground (arith, h)
read_int_lt n old (object fs) h k = ground (arith, h)

module _ {ℓ κ} {A : Type ℓ} (set : String → Value → A → Result A) (P : A → Type κ)
    (keeps : (k : String) (v : Value) (a b : A) → set k v a ≡ ok b → P a → P b) where
  read_fields_keeps : (fs : Fields) (a b : A) → read_fields set fs a ≡ ok b → P a → P b
  unfolding read_fields
  read_fields_keeps no_fields a b h p = let same : a ≡ b = ground (arith, h) in rw (sym same) p
  read_fields_keeps (field k v fs) a b h p = elim (Result-cases (set k v a)) [
    | inl (e, failed) ↦ absurd (ground (arith, h, failed))
    | inr (c, sets) ↦ read_fields_keeps fs c b (ground (arith, h, sets)) (keeps k v a c sets p)
  ]

  pub read_struct_keeps : (v : Value) (a b : A) → read_struct set v a ≡ ok b → P a → P b
  unfolding read_struct
  read_struct_keeps null a b h p = let same : a ≡ b = ground (arith, h) in rw (sym same) p
  read_struct_keeps (object fs) a b h p = read_fields_keeps fs a b h p
  read_struct_keeps (bool c) a b h p = absurd (ground (arith, h))
  read_struct_keeps (number l) a b h p = absurd (ground (arith, h))
  read_struct_keeps (text s) a b h p = absurd (ground (arith, h))
  read_struct_keeps (array vs) a b h p = absurd (ground (arith, h))

set_authorization_keeps :
    (k : String) (v : Value) (a b : Authorization)
    → set_authorization k v a ≡ ok b
    → TimesFit a
    → TimesFit b
unfolding set_authorization
set_authorization_keeps k v a b h p = ground (
  arith,
  h,
  p,
  read_uint_lt word b.valid_after a.valid_after v,
  read_uint_lt word b.valid_before a.valid_before v,
)

set_cosmos_payload_keeps :
    (k : String) (v : Value) (a b : CosmosPayload)
    → set_cosmos_payload k v a ≡ ok b
    → TimesFit a.authorization
    → TimesFit b.authorization
unfolding set_cosmos_payload
set_cosmos_payload_keeps k v a b h p = ground (
  arith,
  h,
  p,
  read_struct_keeps set_authorization TimesFit set_authorization_keeps v a.authorization
      b.authorization,
)

pub set_payload_keeps :
    (k : String) (v : Value) (a b : PaymentPayload)
    → set_payload k v a ≡ ok b
    → PayloadFits a
    → PayloadFits b
unfolding set_payload
set_payload_keeps k v a b h p = ground (
  arith,
  h,
  p,
  read_int_lt b.x402_version a.x402_version v,
  read_struct_keeps set_cosmos_payload (λ x. TimesFit x.authorization) set_cosmos_payload_keeps v
      a.payload b.payload,
)

-- Whatever bytes a payload is decoded from, its version and the two times of its authorization
-- are below 2 ^ 64.
pub unmarshal_payload-PayloadFits :
    (s : Bytes) (p : PaymentPayload) → unmarshal_payload s ≡ ok p → PayloadFits p
unfolding unmarshal_payload
unmarshal_payload-PayloadFits s p h = elim (Result-cases (unmarshal s)) [
  | inl (e, failed) ↦ absurd (ground (arith, h, failed))
  | inr (v, read) ↦
      read_struct_keeps set_payload PayloadFits set_payload_keeps v zero_payload p
        (ground (arith, h, read)) (omega arith, (omega arith, omega arith))
]
