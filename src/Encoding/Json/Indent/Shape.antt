-- ===== src/Encoding/Json/Indent/Shape.antt =====
-- The shape of indented JSON: how it begins, its parts, and the white space between them.
use cosmos_pay.Prelude.{
  ℕ, zero, suc, ◌<◌, ◌≡◌, refl, ap, true, false, List, [], ◌∷◌, ◌++◌, arith, length,
}
use cosmos_pay.Encoding.Json.{Json, null, str, num, neg, bool, arr, obj}
use cosmos_pay.Encoding.Json.Value.{
  Value, Parsed, done, bad, ◌>>=◌, text, array, object, number, skip_space,
}
use cosmos_pay.Encoding.Json.Text.{read_text}
use cosmos_pay.Encoding.Json.Number.{read_number}
use cosmos_pay.Encoding.Json.Parse.{
  starts_text, starts_array, starts_object, starts_number, starts_true, starts_false, starts_null,
  starts_nothing, expect_word, expect_first, read_key, parse_items, parse_members, is_next, rest_of,
  parse_value, parse_more_items, parse_more_members, start_of,
}
use cosmos_pay.Encoding.Json.Parse.Printed.{value_opens, print_pos}
use cosmos_pay.Encoding.Json.Indent.{line, spaces, print_at}

skip_space-spaces : (d : ℕ) (s : List ℕ) → skip_space (spaces d ++ s) ≡ skip_space s
unfolding skip_space
skip_space-spaces zero s = refl
skip_space-spaces (suc d) s = skip_space-spaces d s

pub skip_space-line : (d : ℕ) (s : List ℕ) → skip_space (line d ++ s) ≡ skip_space s
unfolding skip_space
skip_space-line d s = skip_space-spaces d s

-- one value with no white space in front
abbrev value_at : ℕ → List ℕ → Parsed (Value × List ℕ)
value_at f s = elim (start_of s) [
  | starts_text ↦ do (t, s₁) ← read_text (rest_of s); done (text t, s₁)
  | starts_array ↦ do (vs, s₁) ← parse_items f (rest_of s); done (array vs, s₁)
  | starts_object ↦ do (fs, s₁) ← parse_members f (rest_of s); done (object fs, s₁)
  | starts_number ↦ do (l, s₁) ← read_number s; done (number l, s₁)
  | starts_true ↦ expect_word (b't' ∷ b'r' ∷ b'u' ∷ b'e' ∷ []) (Value.bool true) s
  | starts_false ↦ expect_word (b'f' ∷ b'a' ∷ b'l' ∷ b's' ∷ b'e' ∷ []) (Value.bool false) s
  | starts_null ↦ expect_word (b'n' ∷ b'u' ∷ b'l' ∷ b'l' ∷ []) Value.null s
  | starts_nothing ↦ bad
]

-- The parser does not see white space in front of a value.
pub parse_value_spaced :
    (f : ℕ) (s t : List ℕ) → skip_space s ≡ skip_space t → parse_value f s ≡ parse_value f t
unfolding parse_value
parse_value_spaced zero s t h = refl
parse_value_spaced (suc f) s t h = ap (value_at f) h

read_key_spaced : (s t : List ℕ) → skip_space s ≡ skip_space t → read_key s ≡ read_key t
read_key_spaced s t h = ap (λ u. expect_first b'"' u >>= λ p. read_text p.1) h

pub parse_more_items_spaced :
    (f : ℕ) (s t : List ℕ)
    → skip_space s ≡ skip_space t
    → parse_more_items f s ≡ parse_more_items f t
unfolding parse_value
parse_more_items_spaced zero s t h = refl
parse_more_items_spaced (suc f) s t h = rw (parse_value_spaced f s t h) refl

pub parse_more_members_spaced :
    (f : ℕ) (s t : List ℕ)
    → skip_space s ≡ skip_space t
    → parse_more_members f s ≡ parse_more_members f t
unfolding parse_value
parse_more_members_spaced zero s t h = refl
parse_more_members_spaced (suc f) s t h = rw (read_key_spaced s t h) refl

pub value_opens_at :
    (d : ℕ) (v : Json) (s : List ℕ) → is_next b']' (skip_space (print_at d v ++ s)) ≡ false
unfolding print_at skip_space
value_opens_at d null s = value_opens null s
value_opens_at d (str t) s = value_opens (str t) s
value_opens_at d (num n) s = value_opens (num n) s
value_opens_at d (neg n) s = value_opens (neg n) s
value_opens_at d (bool b) s = value_opens (bool b) s
value_opens_at d (arr xs) s = refl
value_opens_at d (obj ms) s = refl

pub print_at_pos : (d : ℕ) (v : Json) → 0 < length (print_at d v)
unfolding print_at
print_at_pos d null = print_pos null
print_at_pos d (str t) = print_pos (str t)
print_at_pos d (num n) = print_pos (num n)
print_at_pos d (neg n) = print_pos (neg n)
print_at_pos d (bool b) = print_pos (bool b)
print_at_pos d (arr xs) = omega arith
print_at_pos d (obj ms) = omega arith
