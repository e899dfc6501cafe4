-- ===== src/Encoding/Base64/Laws.antt =====
-- The round trip of base64.
use cosmos_pay.Prelude.{
  ℕ, ◌+◌, ◌*◌, ◌/◌, ◌%◌, ◌<◌, ◌≡◌, refl, some, List, [], ◌∷◌, arith, All, false, eqb,
}
use cosmos_pay.Prelude.Text.{codes, ascii_text}
use cosmos_pay.Errors.{ok}
use cosmos_pay.Encoding.Base64.{
  sextet_char, char_sextet, encode_codes, encode, decode_groups, skip_line_breaks, decode,
  is_line_break,
}

char_sextet-sextet_char : (n : ℕ) → n < 64 → char_sextet (sextet_char n) ≡ some n
unfolding char_sextet sextet_char
char_sextet-sextet_char n h = ground arith

-- what every character of an encoding is: ASCII, no line break
abbrev IsPrintable : ℕ → Type 0
IsPrintable c = (c < 128) × (is_line_break c ≡ false)

sextet_char-IsPrintable : (n : ℕ) → IsPrintable (sextet_char n)
unfolding sextet_char
sextet_char-IsPrintable n = ground arith

sextet_char-ne-pad : (n : ℕ) → eqb (sextet_char n) b'=' ≡ false
unfolding sextet_char
sextet_char-ne-pad n = ground arith

decode_groups-encode_codes :
    (bytes : List ℕ) → All (λ b. b < 256) bytes → decode_groups (encode_codes bytes) ≡ some bytes
unfolding decode_groups encode_codes
decode_groups-encode_codes [] h = refl
decode_groups-encode_codes (a ∷ []) h =
    ground (arith, char_sextet-sextet_char (a / 4), char_sextet-sextet_char (a % 4 * 16))
decode_groups-encode_codes (a ∷ b ∷ []) h = ground (
  arith,
  char_sextet-sextet_char (a / 4),
  char_sextet-sextet_char (a % 4 * 16 + b / 16),
  char_sextet-sextet_char (b % 16 * 4),
  sextet_char-ne-pad (b % 16 * 4),
)
decode_groups-encode_codes (a ∷ b ∷ c ∷ rest) h = ground (
  arith,
  char_sextet-sextet_char (a / 4),
  char_sextet-sextet_char (a % 4 * 16 + b / 16),
  char_sextet-sextet_char (b % 16 * 4 + c / 64),
  char_sextet-sextet_char (c % 64),
  sextet_char-ne-pad (b % 16 * 4 + c / 64),
  sextet_char-ne-pad (c % 64),
  decode_groups-encode_codes rest h.1.1.1,
)

encode_codes-IsPrintable : (bytes : List ℕ) → All IsPrintable (encode_codes bytes)
unfolding encode_codes
encode_codes-IsPrintable [] = tt
encode_codes-IsPrintable (a ∷ []) =
    ground (arith, sextet_char-IsPrintable (a / 4), sextet_char-IsPrintable (a % 4 * 16))
encode_codes-IsPrintable (a ∷ b ∷ []) = ground (
  arith,
  sextet_char-IsPrintable (a / 4),
  sextet_char-IsPrintable (a % 4 * 16 + b / 16),
  sextet_char-IsPrintable (b % 16 * 4),
)
encode_codes-IsPrintable (a ∷ b ∷ c ∷ rest) = ground (
  arith,
  sextet_char-IsPrintable (a / 4),
  sextet_char-IsPrintable (a % 4 * 16 + b / 16),
  sextet_char-IsPrintable (b % 16 * 4 + c / 64),
  sextet_char-IsPrintable (c % 64),
  encode_codes-IsPrintable rest,
)

codes-ascii_text : (l : List ℕ) → All IsPrintable l → codes (ascii_text l) ≡ l
codes-ascii_text [] h = refl
codes-ascii_text (c ∷ l) h = ground (arith, codes-ascii_text l h.1)

skip_line_breaks-of-IsPrintable : (l : List ℕ) → All IsPrintable l → skip_line_breaks l ≡ l
unfolding skip_line_breaks
skip_line_breaks-of-IsPrintable [] h = refl
skip_line_breaks-of-IsPrintable (c ∷ l) h =
    ground (arith, skip_line_breaks-of-IsPrintable l h.1, h.0)

-- Decoding the encoding of a list of bytes gives the bytes.
pub decode-encode : (bytes : List ℕ) → All (λ b. b < 256) bytes → decode (encode bytes) ≡ ok bytes
unfolding decode encode
decode-encode bytes h = rw (
  codes-ascii_text (encode_codes bytes) (encode_codes-IsPrintable bytes),
  skip_line_breaks-of-IsPrintable (encode_codes bytes) (encode_codes-IsPrintable bytes),
  decode_groups-encode_codes bytes h,
)
