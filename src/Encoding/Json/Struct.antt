-- ===== src/Encoding/Json/Struct.antt =====
-- How encoding/json puts a value into a Go variable: strings, booleans, integers and structs.
-- A null leaves the variable as it is; a key is found without regard to case; a member that no field
-- has is skipped; a member that comes twice is decoded twice. Go goes on after a value of a wrong
-- type and gives the error at the end, where no caller looks at the variable; here it ends at once.
use cosmos_pay.Prelude.{
  ℕ, ◌-◌, String, Bool, ◌≡◌, refl, ◌&&◌, Option, none, some, List, [], ◌∷◌, eqb, leb, if◌then◌else◌,
}
use cosmos_pay.Prelude.Text.{codes}
use cosmos_pay.Errors.{plain, Result, ok, err, ◌>>=◌}
use cosmos_pay.Encoding.Json.Value.{
  Value, Fields, null, bool, number, text, object, no_fields, field,
}
use cosmos_pay.Encoding.Json.Number.{parse_uint, parse_int}

abbrev pub type_error {ℓ} : {A : Type ℓ} → Result A
type_error = err (plain "json: cannot unmarshal")

-- foldRune, for the runes that fold to a letter of ASCII
abbrev fold_rune : ℕ → ℕ
fold_rune c =
    if leb b'a' c && leb c b'z'
    then c - 32
    else if eqb c 0x17f
    then b'S'
    else if eqb c 0x212a
    then b'K'
    else c

abbrev same_codes : List ℕ → List ℕ → Bool
same_codes [] [] = Bool.true
same_codes (c ∷ cs) (d ∷ ds) = eqb (fold_rune c) (fold_rune d) && same_codes cs ds
same_codes _ _ = Bool.false

-- Whether a key names a field, whose name is ASCII. No two fields of a struct here fold alike, so
-- the exact match that Go tries first is one of these.
unfoldable pub same_key : String → String → Bool
same_key k name = same_codes (codes k) (codes name)

unfoldable pub read_string : Value → String → Result String
read_string null old = ok old
read_string (text s) old = ok s
read_string _ old = type_error

unfoldable pub read_bool : Value → Bool → Result Bool
read_bool null old = ok old
read_bool (bool b) old = ok b
read_bool _ old = type_error

abbrev or_type_error : Option ℕ → Result ℕ
or_type_error none = type_error
or_type_error (some n) = ok n

-- an unsigned integer below `limit`
unfoldable pub read_uint : ℕ → Value → ℕ → Result ℕ
read_uint limit null old = ok old
read_uint limit (number l) old = or_type_error (parse_uint limit l)
read_uint limit _ old = type_error

-- an `int`, as its bit pattern
unfoldable pub read_int : Value → ℕ → Result ℕ
read_int null old = ok old
read_int (number l) old = or_type_error (parse_int l)
read_int _ old = type_error

-- the members in their order, each put into the struct by `set`
unfoldable pub read_fields {ℓ} :
    {A : Type ℓ} → (String → Value → A → Result A) → Fields → A → Result A
read_fields set no_fields a = ok a
read_fields set (field k v fs) a = do b ← set k v a; read_fields set fs b

unfoldable pub read_struct {ℓ} :
    {A : Type ℓ} → (String → Value → A → Result A) → Value → A → Result A
unfolding read_fields
read_struct set null old = ok old
read_struct set (object fs) old = read_fields set fs old
read_struct set _ old = type_error

keys_check :
    (same_key "payTo" "payTo" ≡ Bool.true)
    × (same_key "PAYTO" "payTo" ≡ Bool.true)
    × (same_key "paſTo" "paSto" ≡ Bool.true)
    × (same_key "pay" "payTo" ≡ Bool.false)
unfolding same_key
keys_check = (refl, refl, refl, refl)
