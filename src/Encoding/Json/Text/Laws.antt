-- ===== src/Encoding/Json/Text/Laws.antt =====
-- Reading a string that json.Marshal wrote.
use mathlib.Core.List.{append_assoc}
use cosmos_pay.Prelude.{
  ℕ, zero, suc, ◌+◌, ◌*◌, ◌/◌, ◌%◌, ◌<◌, ◌≤◌, ◌≡◌, refl, true, false, ◌||◌, some, List, [], ◌∷◌,
  ◌++◌, arith, Bool-cases, inl, inr, eqb, length, String,
}
use cosmos_pay.Prelude.Text.{codes, is_scalar, text_of-codes, codes-AreScalars, AreScalars}
use cosmos_pay.Encoding.Utf8.{char_bytes}
use cosmos_pay.Encoding.Json.{
  hex_digit, unicode_escape, is_numbered, escape_other, escape_control, escape, escape_all,
}
use cosmos_pay.Encoding.Json.Value.{done}
use cosmos_pay.Encoding.Json.Text.{
  decode_rune, hex_value, read_hex, escaped, read_code, read_codes, read_text,
}

decode_rune-char_bytes :
    (c b : ℕ) (l s : List ℕ)
    → is_scalar c ≡ true
    → char_bytes c ≡ b ∷ l
    → decode_rune b (l ++ s) ≡ (c, s)
unfolding decode_rune char_bytes
decode_rune-char_bytes c b l s scalar e = ground arith

hex_value-hex_digit : (n : ℕ) → n < 16 → hex_value (hex_digit n) ≡ some n
unfolding hex_digit hex_value
hex_value-hex_digit n h = ground arith

read_hex_sum :
    (a b c d w x y z : ℕ) (s : List ℕ)
    → hex_value a ≡ some w
    → hex_value b ≡ some x
    → hex_value c ≡ some y
    → hex_value d ≡ some z
    → read_hex (a ∷ b ∷ c ∷ d ∷ s) ≡ some (w * 4096 + x * 256 + y * 16 + z, s)
unfolding read_hex
read_hex_sum a b c d w x y z s ha hb hc hd = ground arith

read_hex_digits :
    (c : ℕ) (s : List ℕ)
    → c < 65536
    → read_hex (
        hex_digit (c / 4096)
        ∷ hex_digit (c / 256 % 16)
        ∷ hex_digit (c / 16 % 16)
        ∷ hex_digit (c % 16)
        ∷ s)
      ≡ some (c, s)
read_hex_digits c s h =
    let sum : c / 4096 * 4096 + c / 256 % 16 * 256 + c / 16 % 16 * 16 + c % 16 ≡ c = omega arith in
    let read =
      read_hex_sum _ _ _ _ _ _ _ _ s (hex_value-hex_digit (c / 4096) (omega arith))
        (hex_value-hex_digit (c / 256 % 16) (omega arith))
        (hex_value-hex_digit (c / 16 % 16) (omega arith))
        (hex_value-hex_digit (c % 16) (omega arith)) in
    rw sum at read

read_code-unicode_escape :
    (c : ℕ) (s : List ℕ)
    → c < 65536
    → is_scalar c ≡ true
    → read_code (unicode_escape c ++ s) ≡ done (some c, s)
unfolding read_code unicode_escape
read_code-unicode_escape c s h scalar = rw (read_hex_digits c s h) (ground arith)

read_code-char_bytes :
    (c : ℕ) (s : List ℕ)
    → is_scalar c ≡ true
    → 32 ≤ c
    → eqb c b'"' ≡ false
    → eqb c b'\\' ≡ false
    → read_code (char_bytes c ++ s) ≡ done (some c, s)
unfolding read_code char_bytes decode_rune
read_code-char_bytes c s scalar h q b = ground arith

read_code_controls :
    (s : List ℕ)
    → (read_code (b'\\' ∷ b'b' ∷ s) ≡ done (some 8, s))
      × (read_code (b'\\' ∷ b'f' ∷ s) ≡ done (some 12, s))
      × (read_code (b'\\' ∷ b'n' ∷ s) ≡ done (some 10, s))
      × (read_code (b'\\' ∷ b'r' ∷ s) ≡ done (some 13, s))
      × (read_code (b'\\' ∷ b't' ∷ s) ≡ done (some 9, s))
unfolding read_code escaped
read_code_controls s = (refl, refl, refl, refl, refl)

read_code_backslash :
    (c : ℕ) (s : List ℕ)
    → (eqb c b'"' || eqb c b'\\') ≡ true
    → read_code (b'\\' ∷ c ∷ s) ≡ done (some c, s)
unfolding read_code escaped
read_code_backslash c s h = ground arith

lt_of_is_numbered : (c : ℕ) → is_numbered c ≡ true → c < 65536
unfolding is_numbered
lt_of_is_numbered c h = ground arith

le_of_not_is_numbered : (c : ℕ) → is_numbered c ≡ false → 32 ≤ c
unfolding is_numbered
le_of_not_is_numbered c h = ground arith

read_code-escape_other :
    (c : ℕ) (s : List ℕ)
    → is_scalar c ≡ true
    → eqb c b'"' ≡ false
    → eqb c b'\\' ≡ false
    → read_code (escape_other c ++ s) ≡ done (some c, s)
unfolding escape_other
read_code-escape_other c s scalar q b = elim (Bool-cases (is_numbered c)) [
  | inl h ↦ rw h (read_code-unicode_escape c s (lt_of_is_numbered c h) scalar)
  | inr h ↦ rw h (read_code-char_bytes c s scalar (le_of_not_is_numbered c h) q b)
]

read_code-escape_control :
    (c : ℕ) (s : List ℕ)
    → is_scalar c ≡ true
    → eqb c b'"' ≡ false
    → eqb c b'\\' ≡ false
    → read_code (escape_control c ++ s) ≡ done (some c, s)
unfolding escape_control
read_code-escape_control c s scalar q b =
    ground (arith, read_code_controls s, read_code-escape_other c s scalar q b)

read_code-escape :
    (c : ℕ) (s : List ℕ) → is_scalar c ≡ true → read_code (escape c ++ s) ≡ done (some c, s)
unfolding escape
read_code-escape c s scalar =
    ground (arith, read_code_backslash c s, read_code-escape_control c s scalar)

-- Every code point is written with a byte at least, so the bytes are enough fuel.
length-escape_pos : (c : ℕ) (s : List ℕ) → length s < length (escape c ++ s)
unfolding escape escape_control escape_other unicode_escape char_bytes
length-escape_pos c s = ground arith

le-length-escape_all : (cs t : List ℕ) → length cs ≤ length (escape_all cs ++ t)
unfolding escape_all
le-length-escape_all [] t = omega arith
le-length-escape_all (c ∷ cs) t =
    rw append_assoc
      (omega (arith, length-escape_pos c (escape_all cs ++ t), le-length-escape_all cs t))

read_codes-escape_all :
    (cs : List ℕ) (f : ℕ) (t : List ℕ)
    → AreScalars cs
    → length cs < f
    → read_codes f (escape_all cs ++ b'"' ∷ t) ≡ done (cs, t)
unfolding read_codes escape_all
read_codes-escape_all cs zero t scalars h = absurd (omega arith)
read_codes-escape_all [] (suc f) t scalars h = refl
read_codes-escape_all (c ∷ cs) (suc f) t scalars h = rw append_assoc (
    rw
      (
        read_code-escape c (escape_all cs ++ b'"' ∷ t) scalars.0,
        read_codes-escape_all cs f t scalars.1 (omega arith),
      )
      refl)

-- A string reads back.
pub read_text-escape_all :
    (s : String) (t : List ℕ) → read_text (escape_all (codes s) ++ b'"' ∷ t) ≡ done (s, t)
unfolding read_text
read_text-escape_all s t =
    let read =
      read_codes-escape_all (codes s) (suc (length (escape_all (codes s) ++ b'"' ∷ t))) t
        (codes-AreScalars s) (omega (arith, le-length-escape_all (codes s) (b'"' ∷ t))) in
    rw (read, text_of-codes s) refl
