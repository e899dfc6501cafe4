-- ===== src/Encoding/Base64.antt =====
-- base64.StdEncoding of Go's encoding/base64: the standard alphabet with padding. `DecodeString`
-- skips line breaks wherever they stand and does not look at the unused bits of a last group; the
-- position that its error names is not modelled.
pub mod Laws
use cosmos_pay.Prelude.{
  ℕ, ◌+◌, ◌-◌, ◌*◌, ◌/◌, ◌%◌, String, Bool, true, false, ◌&&◌, ◌||◌, Option, none, some, List, [],
  ◌∷◌, ltb, leb, eqb, if◌then◌else◌,
}
use cosmos_pay.Prelude.Text.{codes, ascii_text}
use cosmos_pay.Errors.{Result, ok, err, plain}

-- the character of a 6-bit value
unfoldable pub sextet_char : ℕ → ℕ
sextet_char n =
    if ltb n 26
    then n + b'A'
    else if ltb n 52
    then n - 26 + b'a'
    else if ltb n 62
    then n - 52 + b'0'
    else if eqb n 62
    then b'+'
    else b'/'

-- the value of a character of the alphabet
unfoldable pub char_sextet : ℕ → Option ℕ
char_sextet c =
    if leb b'A' c && leb c b'Z'
    then some (c - b'A')
    else if leb b'a' c && leb c b'z'
    then some (c - b'a' + 26)
    else if leb b'0' c && leb c b'9'
    then some (c - b'0' + 52)
    else if eqb c b'+'
    then some 62
    else if eqb c b'/'
    then some 63
    else none

unfoldable pub encode_codes : List ℕ → List ℕ
encode_codes [] = []
encode_codes (a ∷ []) = sextet_char (a / 4) ∷ sextet_char (a % 4 * 16) ∷ b'=' ∷ b'=' ∷ []
encode_codes (a ∷ b ∷ []) =
    sextet_char (a / 4) ∷ sextet_char (a % 4 * 16 + b / 16) ∷ sextet_char (b % 16 * 4) ∷ b'=' ∷ []
encode_codes (a ∷ b ∷ c ∷ rest) =
    sextet_char (a / 4)
    ∷ sextet_char (a % 4 * 16 + b / 16)
    ∷ sextet_char (b % 16 * 4 + c / 64)
    ∷ sextet_char (c % 64)
    ∷ encode_codes rest

-- base64.StdEncoding.EncodeToString
unfoldable pub encode : List ℕ → String
unfolding encode_codes sextet_char
encode bytes = ascii_text (encode_codes bytes)

abbrev pub byte₁ : ℕ → ℕ → ℕ
byte₁ v w = v * 4 + w / 16

abbrev pub byte₂ : ℕ → ℕ → ℕ
byte₂ w x = w % 16 * 16 + x / 4

abbrev pub byte₃ : ℕ → ℕ → ℕ
byte₃ x y = x % 4 * 64 + y

abbrev pub is_empty {ℓ} : {A : Type ℓ} → List A → Bool
is_empty [] = true
is_empty (a ∷ l) = false

-- a last group "ab=="
abbrev padded_one : Option ℕ → Option ℕ → Bool → Option (List ℕ)
padded_one (some v) (some w) true = some (byte₁ v w ∷ [])
padded_one _ _ _ = none

-- a last group "abc="
abbrev padded_two : Option ℕ → Option ℕ → Option ℕ → Bool → Option (List ℕ)
padded_two (some v) (some w) (some x) true = some (byte₁ v w ∷ byte₂ w x ∷ [])
padded_two _ _ _ _ = none

-- a full group, before the bytes of the rest
abbrev full : Option ℕ → Option ℕ → Option ℕ → Option ℕ → Option (List ℕ) → Option (List ℕ)
full (some v) (some w) (some x) (some y) (some rest) =
    some (byte₁ v w ∷ byte₂ w x ∷ byte₃ x y ∷ rest)
full _ _ _ _ _ = none

-- the groups of four, line breaks taken out
unfoldable pub decode_groups : List ℕ → Option (List ℕ)
decode_groups [] = some []
decode_groups (a ∷ b ∷ c ∷ d ∷ rest) =
    let more = decode_groups rest in
    if eqb c b'='
    then padded_one (char_sextet a) (char_sextet b) (eqb d b'=' && is_empty rest)
    else if eqb d b'='
    then padded_two (char_sextet a) (char_sextet b) (char_sextet c) (is_empty rest)
    else full (char_sextet a) (char_sextet b) (char_sextet c) (char_sextet d) more
decode_groups _ = none

abbrev pub is_line_break : ℕ → Bool
is_line_break c = eqb c 10 || eqb c 13

unfoldable pub skip_line_breaks : List ℕ → List ℕ
skip_line_breaks [] = []
skip_line_breaks (c ∷ s) =
    let rest = skip_line_breaks s in if is_line_break c then rest else c ∷ rest

abbrev or_corrupt : Option (List ℕ) → Result (List ℕ)
or_corrupt none = err (plain "illegal base64 data")
or_corrupt (some bytes) = ok bytes

-- base64.StdEncoding.DecodeString
unfoldable pub decode : String → Result (List ℕ)
unfolding decode_groups char_sextet skip_line_breaks
decode s = or_corrupt (decode_groups (skip_line_breaks (codes s)))
