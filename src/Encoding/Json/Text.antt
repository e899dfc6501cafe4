-- ===== src/Encoding/Json/Text.antt =====
-- The strings of a JSON text, as encoding/json unquotes them: escapes, surrogate pairs, and UTF-8.
-- What is no scalar value is read as U+FFFD.
pub mod Laws
use cosmos_pay.Prelude.{
  ℕ, zero, suc, ◌+◌, ◌-◌, ◌*◌, Bool, true, false, ◌&&◌, ◌||◌, Option, none, some, List, [], ◌∷◌,
  ltb, leb, eqb, if◌then◌else◌, String,
}
use cosmos_pay.Prelude.Text.{text_of}
use cosmos_pay.Prelude.{length}
use cosmos_pay.Encoding.Json.Value.{Parsed, done, bad, spent, ◌>>=◌, Parser}

-- utf8.RuneError
abbrev pub rune_error : ℕ
rune_error = 0xfffd

abbrev within : ℕ → ℕ → ℕ → Bool
within low high c = leb low c && leb c high

-- the bytes of a rune after its first, or an error of width one
abbrev decode_two : ℕ → List ℕ → ℕ × List ℕ
decode_two b (c ∷ s) =
    if within 0x80 0xbf c then ((b - 0xc0) * 64 + (c - 0x80), s) else (rune_error, c ∷ s)
decode_two b [] = (rune_error, [])

abbrev decode_three : ℕ → ℕ → ℕ → List ℕ → ℕ × List ℕ
decode_three b low high (c ∷ d ∷ s) =
    if within low high c && within 0x80 0xbf d
    then ((b - 0xe0) * 4096 + (c - 0x80) * 64 + (d - 0x80), s)
    else (rune_error, c ∷ d ∷ s)
decode_three b low high s = (rune_error, s)

abbrev decode_four : ℕ → ℕ → ℕ → List ℕ → ℕ × List ℕ
decode_four b low high (c ∷ d ∷ e ∷ s) =
    if within low high c && within 0x80 0xbf d && within 0x80 0xbf e
    then ((b - 0xf0) * 262144 + (c - 0x80) * 4096 + (d - 0x80) * 64 + (e - 0x80), s)
    else (rune_error, c ∷ d ∷ e ∷ s)
decode_four b low high s = (rune_error, s)

-- utf8.DecodeRune, after the first byte
unfoldable pub decode_rune : ℕ → List ℕ → ℕ × List ℕ
decode_rune b s =
    if ltb b 0x80
    then (b, s)
    else if within 0xc2 0xdf b
    then decode_two b s
    else if within 0xe0 0xef b
    then decode_three b (if eqb b 0xe0 then 0xa0 else 0x80) (if eqb b 0xed then 0x9f else 0xbf) s
    else if within 0xf0 0xf4 b
    then decode_four b (if eqb b 0xf0 then 0x90 else 0x80) (if eqb b 0xf4 then 0x8f else 0xbf) s
    else (rune_error, s)

unfoldable pub hex_value : ℕ → Option ℕ
hex_value c =
    if within b'0' b'9' c
    then some (c - b'0')
    else if within b'a' b'f' c
    then some (c - b'a' + 10)
    else if within b'A' b'F' c
    then some (c - b'A' + 10)
    else none

abbrev pub hex_sum : Option ℕ → Option ℕ → Option ℕ → Option ℕ → Option ℕ
hex_sum (some a) (some b) (some c) (some d) = some (a * 4096 + b * 256 + c * 16 + d)
hex_sum _ _ _ _ = none

-- four hexadecimal digits
unfoldable pub read_hex : List ℕ → Option (ℕ × List ℕ)
unfolding hex_value
read_hex (a ∷ b ∷ c ∷ d ∷ s) =
    elim (hex_sum (hex_value a) (hex_value b) (hex_value c) (hex_value d)) [
      | some n ↦ some (n, s)
      | none ↦ none
    ]
read_hex _ = none

-- another escape by number
abbrev pub read_second : List ℕ → Option (ℕ × List ℕ)
read_second (a ∷ b ∷ s) = if eqb a b'\\' && eqb b b'u' then read_hex s else none
read_second _ = none

-- the low half of a surrogate pair, as the rune of the pair
abbrev pub join_pair : ℕ → List ℕ → Option (ℕ × List ℕ) → ℕ × List ℕ
join_pair high s (some (low, rest)) =
    if ltb high 0xdc00 && within 0xdc00 0xdfff low
    then ((high - 0xd800) * 1024 + (low - 0xdc00) + 0x10000, rest)
    else (rune_error, s)
join_pair high s none = (rune_error, s)

abbrev pub with_pair : ℕ → List ℕ → ℕ × List ℕ
with_pair c s = if within 0xd800 0xdfff c then join_pair c s (read_second s) else (c, s)

-- the escapes by letter
unfoldable pub escaped : ℕ → Option ℕ
escaped e =
    if eqb e b'"' || eqb e b'\\' || eqb e b'/'
    then some e
    else if eqb e b'b'
    then some 8
    else if eqb e b'f'
    then some 12
    else if eqb e b'n'
    then some 10
    else if eqb e b'r'
    then some 13
    else if eqb e b't'
    then some 9
    else none

abbrev pub code_of : Option (ℕ × List ℕ) → Parsed (Option ℕ × List ℕ)
code_of none = bad
code_of (some (c, s)) = let (d, rest) = with_pair c s in done (some d, rest)

abbrev pub letter_of : Option ℕ → List ℕ → Parsed (Option ℕ × List ℕ)
letter_of none s = bad
letter_of (some c) s = done (some c, s)

-- after a backslash
abbrev pub read_escape : Parser (Option ℕ)
read_escape [] = bad
read_escape (e ∷ s) = if eqb e b'u' then code_of (read_hex s) else letter_of (escaped e) s

-- one code point of a string, or its closing quote
unfoldable pub read_code : Parser (Option ℕ)
unfolding read_hex escaped decode_rune
read_code [] = bad
read_code (b ∷ s) =
    if eqb b b'"'
    then done (none, s)
    else if eqb b b'\\'
    then read_escape s
    else if ltb b 32
    then bad
    else (let (c, rest) = decode_rune b s in done (some c, rest))

-- the code points up to the closing quote; the fuel counts them
unfoldable pub read_codes : ℕ → Parser (List ℕ)
unfolding read_code
read_codes zero s = spent
read_codes (suc f) s = do
  (c, rest) ← read_code s
  elim c [
    | none ↦ done ([], rest)
    | some c ↦ do (cs, rest') ← read_codes f rest; done (c ∷ cs, rest')
  ]

-- a string, after its opening quote
unfoldable pub read_text : Parser String
unfolding read_codes
read_text s = do (cs, rest) ← read_codes (suc (length s)) s; done (text_of cs, rest)
