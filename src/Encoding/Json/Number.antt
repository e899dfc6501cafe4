-- ===== src/Encoding/Json/Number.antt =====
-- The numbers of a JSON text: their literals, and the integers that strconv reads from a literal.
pub mod Laws
use cosmos_pay.Prelude.{
  ℕ, ◌+◌, ◌-◌, ◌*◌, ◌%◌, Bool, ◌&&◌, ◌||◌, Option, none, some, List, [], ◌∷◌, ◌++◌, ltb, leb, eqb,
  if◌then◌else◌,
}
use cosmos_pay.Prelude.Words.{word, half_word}
use cosmos_pay.Encoding.Json.Value.{Parsed, done, bad, ◌>>=◌, Parser}

abbrev pub is_digit : ℕ → Bool
is_digit c = leb b'0' c && leb c b'9'

-- the digits in front, and what follows
unfoldable pub split_digits : List ℕ → List ℕ × List ℕ
split_digits [] = ([], [])
split_digits (c ∷ s) =
    let (ds, rest) = split_digits s in if is_digit c then (c ∷ ds, rest) else ([], c ∷ s)

-- one digit at least, behind what was read before
abbrev pub some_digits : List ℕ → List ℕ × List ℕ → Parsed (List ℕ × List ℕ)
some_digits front ([], rest) = bad
some_digits front (d ∷ ds, rest) = done (front ++ d ∷ ds, rest)

abbrev pub read_sign : Parser (List ℕ)
read_sign [] = done ([], [])
read_sign (c ∷ s) = if eqb c b'-' then done (c ∷ [], s) else done ([], c ∷ s)

-- no digit may follow a zero in front
abbrev pub read_whole : Parser (List ℕ)
read_whole [] = bad
read_whole (c ∷ s) = if eqb c b'0' then done (c ∷ [], s) else some_digits [] (split_digits (c ∷ s))

abbrev pub read_fraction : Parser (List ℕ)
read_fraction [] = done ([], [])
read_fraction (c ∷ s) =
    if eqb c b'.' then some_digits (c ∷ []) (split_digits s) else done ([], c ∷ s)

abbrev pub read_power : ℕ → Parser (List ℕ)
read_power e [] = bad
read_power e (c ∷ s) =
    if eqb c b'+' || eqb c b'-'
    then some_digits (e ∷ c ∷ []) (split_digits s)
    else some_digits (e ∷ []) (split_digits (c ∷ s))

abbrev pub read_exponent : Parser (List ℕ)
read_exponent [] = done ([], [])
read_exponent (c ∷ s) = if eqb c b'e' || eqb c b'E' then read_power c s else done ([], c ∷ s)

-- the literal of a number
unfoldable pub read_number : Parser (List ℕ)
unfolding split_digits
read_number s = do
  (sign, s₁) ← read_sign s
  (whole, s₂) ← read_whole s₁
  (fraction, s₃) ← read_fraction s₂
  (exponent, s₄) ← read_exponent s₃
  done (sign ++ whole ++ fraction ++ exponent, s₄)

-- the digits to the end of the literal
unfoldable pub digits_value : ℕ → List ℕ → Option ℕ
digits_value acc [] = some acc
digits_value acc (c ∷ l) =
    let rest = digits_value (acc * 10 + (c - b'0')) l in if is_digit c then rest else none

-- strconv.ParseUint(s, 10, bits), at the first number that does not fit; a literal is not empty
unfoldable pub parse_uint : ℕ → List ℕ → Option ℕ
unfolding digits_value
parse_uint limit l = elim (digits_value 0 l) [
  | none ↦ none
  | some n ↦ if ltb n limit then some n else none
]

-- the bit pattern of a magnitude with a minus sign, if it fits
abbrev negated : Option ℕ → Option ℕ
negated none = none
negated (some n) = if leb n half_word then some ((word - n) % word) else none

-- strconv.ParseInt(s, 10, 64), as a bit pattern
unfoldable pub parse_int : List ℕ → Option ℕ
unfolding digits_value parse_uint
parse_int [] = none
parse_int (c ∷ l) = if eqb c b'-' then negated (digits_value 0 l) else parse_uint half_word (c ∷ l)
