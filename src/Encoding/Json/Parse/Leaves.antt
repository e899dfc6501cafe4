-- ===== src/Encoding/Json/Parse/Leaves.antt =====
-- The readers of strings and numbers come to an end, and leave a part of the text.
use cosmos_pay.Prelude.{
  ℕ, zero, suc, ◌<◌, ◌≤◌, ◌≡◌, refl, Bool, true, false, ◌||◌, Option, none, some, List, [], ◌∷◌,
  arith, length, ltb, eqb, if◌then◌else◌,
}
use cosmos_pay.Encoding.Json.Value.{Value, Parsed, done, bad, spent, ◌>>=◌, skip_space}
use cosmos_pay.Encoding.Json.Text.{
  decode_rune, read_hex, escaped, read_code, read_codes, read_text, hex_value, hex_sum, read_second,
  join_pair, with_pair, code_of, letter_of, read_escape,
}
use cosmos_pay.Encoding.Json.Number.{
  split_digits, some_digits, read_sign, read_whole, read_fraction, read_power, read_exponent,
  read_number,
}
use cosmos_pay.Encoding.Json.Parse.{is_next, rest_of, expect_first, expect, expect_word}

-- The fuel is not spent, and what is left of the text has at most `n` bytes.
abbrev pub LeavesAtMost {ℓ} : {A : Type ℓ} → ℕ → Parsed (A × List ℕ) → Type 0
LeavesAtMost n (done (a, rest)) = length rest ≤ n
LeavesAtMost n bad = Unit
LeavesAtMost n spent = ⊥

pub more {ℓ} :
    {A : Type ℓ} (m n : ℕ) (p : Parsed (A × List ℕ)) → m ≤ n → LeavesAtMost m p → LeavesAtMost n p
more m n (done (a, rest)) h k = omega (arith, k)
more m n bad h k = tt
more m n spent h k = k

pub then_leaves {ℓ κ} :
    {A : Type ℓ} {B : Type κ} (m n : ℕ) (p : Parsed (A × List ℕ))
    (f : A × List ℕ → Parsed (B × List ℕ))
    → LeavesAtMost m p
    → ((a : A) (rest : List ℕ) → length rest ≤ m → LeavesAtMost n (f (a, rest)))
    → LeavesAtMost n (p >>= f)
then_leaves m n (done (a, rest)) f h k = k a rest h
then_leaves m n bad f h k = tt
then_leaves m n spent f h k = absurd h

pub le-length-skip_space : (s : List ℕ) → length (skip_space s) ≤ length s
unfolding skip_space
le-length-skip_space [] = omega arith
le-length-skip_space (c ∷ s) = ground (arith, le-length-skip_space s)

le-length-decode_rune : (b : ℕ) (s : List ℕ) → length (decode_rune b s).1 ≤ length s
unfolding decode_rune
le-length-decode_rune b [] = ground arith
le-length-decode_rune b (c ∷ []) = ground arith
le-length-decode_rune b (c ∷ d ∷ []) = ground arith
le-length-decode_rune b (c ∷ d ∷ e ∷ s) = ground arith

pub lt-length-rest_of : (c : ℕ) (s : List ℕ) → is_next c s ≡ true → length (rest_of s) < length s
lt-length-rest_of c [] h = ground (arith, h)
lt-length-rest_of c (d ∷ s) h = omega arith

if_leaves {ℓ} :
    {A : Type ℓ} (n : ℕ) (c : Bool) (p q : Parsed (A × List ℕ))
    → LeavesAtMost n p
    → LeavesAtMost n q
    → LeavesAtMost n (if c then p else q)
if_leaves n true p q h k = h
if_leaves n false p q h k = k

pub word_leaves :
    (l : List ℕ) (v : Value) (s : List ℕ) → LeavesAtMost (length s) (expect_word l v s)
word_leaves [] v s = omega arith
word_leaves (c ∷ l) v [] = tt
word_leaves (c ∷ l) v (d ∷ s) =
    if_leaves (length (d ∷ s)) (eqb c d) (expect_word l v s) bad
      (more (length s) (length (d ∷ s)) (expect_word l v s) (omega arith) (word_leaves l v s)) tt

first_leaves : (c : ℕ) (s : List ℕ) → LeavesAtMost (length s) (expect_first c s)
first_leaves c [] = tt
first_leaves c (d ∷ s) = if_leaves (length (d ∷ s)) (eqb c d) (done (tt, s)) bad (omega arith) tt

pub expect_leaves : (c : ℕ) (s : List ℕ) → LeavesAtMost (length s) (expect c s)
expect_leaves c s =
    more (length (skip_space s)) (length s) (expect_first c (skip_space s)) (le-length-skip_space s)
      (first_leaves c (skip_space s))

hex_rest :
    (o : Option ℕ) (s t : List ℕ) (n : ℕ)
    → ◌≡◌ {A = Option (ℕ × List ℕ)} (elim o [ some m ↦ some (m, s) | none ↦ none ]) (some (n, t))
    → length t ≤ length s
hex_rest none s t n h = absurd (ground (arith, h))
hex_rest (some m) s t n h = ground (arith, h)

read_hex_le : (s t : List ℕ) (n : ℕ) → read_hex s ≡ some (n, t) → length t ≤ length s
unfolding read_hex
read_hex_le [] t n h = absurd (ground (arith, h))
read_hex_le (a ∷ []) t n h = absurd (ground (arith, h))
read_hex_le (a ∷ b ∷ []) t n h = absurd (ground (arith, h))
read_hex_le (a ∷ b ∷ c ∷ []) t n h = absurd (ground (arith, h))
read_hex_le (a ∷ b ∷ c ∷ d ∷ s) t n h =
    omega
      (arith, hex_rest (hex_sum (hex_value a) (hex_value b) (hex_value c) (hex_value d)) s t n h)

read_second_le : (s t : List ℕ) (n : ℕ) → read_second s ≡ some (n, t) → length t ≤ length s
read_second_le [] t n h = absurd (ground (arith, h))
read_second_le (a ∷ []) t n h = absurd (ground (arith, h))
read_second_le (a ∷ b ∷ s) t n h = ground (arith, h, read_hex_le s t n)

join_pair_le :
    (c : ℕ) (s : List ℕ) (o : Option (ℕ × List ℕ))
    → ((t : List ℕ) (n : ℕ) → o ≡ some (n, t) → length t ≤ length s)
    → length (join_pair c s o).1 ≤ length s
join_pair_le c s none h = omega arith
join_pair_le c s (some (n, t)) h = let le = h t n refl in ground (arith, le)

with_pair_le : (c : ℕ) (s : List ℕ) → length (with_pair c s).1 ≤ length s
with_pair_le c s =
    let le = join_pair_le c s (read_second s) (read_second_le s) in ground (arith, le)

code_of_leaves :
    (n : ℕ) (o : Option (ℕ × List ℕ))
    → ((t : List ℕ) (m : ℕ) → o ≡ some (m, t) → length t ≤ n)
    → LeavesAtMost n (code_of o)
code_of_leaves n none h = tt
code_of_leaves n (some (c, s)) h = omega (arith, with_pair_le c s, h s c refl)

letter_of_leaves : (o : Option ℕ) (s : List ℕ) → LeavesAtMost (length s) (letter_of o s)
letter_of_leaves none s = tt
letter_of_leaves (some c) s = omega arith

escape_leaves : (s : List ℕ) → LeavesAtMost (length s) (read_escape s)
escape_leaves [] = tt
escape_leaves (e ∷ s) =
    if_leaves (length (e ∷ s)) (eqb e b'u') (code_of (read_hex s)) (letter_of (escaped e) s)
      (code_of_leaves (length (e ∷ s)) (read_hex s) (λ t m h. omega (arith, read_hex_le s t m h)))
      (more (length s) (length (e ∷ s)) (letter_of (escaped e) s) (omega arith)
        (letter_of_leaves (escaped e) s))

code_leaves : (b : ℕ) (s : List ℕ) → LeavesAtMost (length s) (read_code (b ∷ s))
unfolding read_code
code_leaves b s = if_leaves (length s) (eqb b b'"') _ _ (omega arith) (
    if_leaves (length s) (eqb b b'\\') _ _ (escape_leaves s)
      (if_leaves (length s) (ltb b 32) _ _ tt (le-length-decode_rune b s)))

more_codes :
    (n : ℕ) (rest : List ℕ) (p : Parsed (List ℕ × List ℕ)) (c : Option ℕ)
    → length rest ≤ n
    → LeavesAtMost n p
    → LeavesAtMost n (elim c [ none ↦ done ([], rest) | some d ↦ do (cs, t) ← p; done (d ∷ cs, t) ])
more_codes n rest p none h k = h
more_codes n rest p (some d) h k = then_leaves n n p _ k (λ cs t le. le)

codes_leave : (f : ℕ) (s : List ℕ) → length s < f → LeavesAtMost (length s) (read_codes f s)
unfolding read_codes
codes_leave zero s h = absurd (omega arith)
codes_leave (suc f) [] h = tt
codes_leave (suc f) (b ∷ s) h =
    then_leaves (length s) (length (b ∷ s)) (read_code (b ∷ s)) _ (code_leaves b s) (λ c rest le.
      more_codes (length (b ∷ s)) rest (read_codes f rest) c (omega (arith, le)) (
        more (length rest) (length (b ∷ s)) (read_codes f rest) (omega (arith, le))
          (codes_leave f rest (omega (arith, le)))))

pub text_leaves : (s : List ℕ) → LeavesAtMost (length s) (read_text s)
unfolding read_text
text_leaves s =
    then_leaves (length s) (length s) (read_codes (suc (length s)) s) _
      (codes_leave (suc (length s)) s (omega arith)) (λ cs rest h. h)

le-length-split_digits : (s : List ℕ) → length (split_digits s).1 ≤ length s
unfolding split_digits
le-length-split_digits [] = omega arith
le-length-split_digits (c ∷ s) = ground (arith, le-length-split_digits s)

digits_leave :
    (n : ℕ) (front : List ℕ) (split : List ℕ × List ℕ)
    → length split.1 ≤ n
    → LeavesAtMost n (some_digits front split)
digits_leave n front ([], rest) h = tt
digits_leave n front (d ∷ ds, rest) h = h

sign_leaves : (s : List ℕ) → LeavesAtMost (length s) (read_sign s)
sign_leaves [] = omega arith
sign_leaves (c ∷ s) = if_leaves (length (c ∷ s)) (eqb c b'-') _ _ (omega arith) (omega arith)

whole_leaves : (s : List ℕ) → LeavesAtMost (length s) (read_whole s)
whole_leaves [] = tt
whole_leaves (c ∷ s) =
    if_leaves (length (c ∷ s)) (eqb c b'0') _ _ (omega arith)
      (digits_leave _ [] (split_digits (c ∷ s)) (le-length-split_digits (c ∷ s)))

fraction_leaves : (s : List ℕ) → LeavesAtMost (length s) (read_fraction s)
fraction_leaves [] = omega arith
fraction_leaves (c ∷ s) =
    if_leaves (length (c ∷ s)) (eqb c b'.') _ _
      (digits_leave _ (c ∷ []) (split_digits s) (omega (arith, le-length-split_digits s)))
      (omega arith)

power_leaves : (e : ℕ) (s : List ℕ) → LeavesAtMost (length s) (read_power e s)
power_leaves e [] = tt
power_leaves e (c ∷ s) =
    if_leaves (length (c ∷ s)) (eqb c b'+' || eqb c b'-') _ _
      (digits_leave _ (e ∷ c ∷ []) (split_digits s) (omega (arith, le-length-split_digits s)))
      (digits_leave _ (e ∷ []) (split_digits (c ∷ s)) (le-length-split_digits (c ∷ s)))

exponent_leaves : (s : List ℕ) → LeavesAtMost (length s) (read_exponent s)
exponent_leaves [] = omega arith
exponent_leaves (c ∷ s) =
    if_leaves (length (c ∷ s)) (eqb c b'e' || eqb c b'E') _ _
      (more (length s) (length (c ∷ s)) (read_power c s) (omega arith) (power_leaves c s))
      (omega arith)

pub number_leaves : (s : List ℕ) → LeavesAtMost (length s) (read_number s)
unfolding read_number
number_leaves s = then_leaves (length s) (length s) (read_sign s) _ (sign_leaves s) (λ sign s₁ h₁.
    then_leaves (length s₁) (length s) (read_whole s₁) _ (whole_leaves s₁) (λ whole s₂ h₂.
      then_leaves (length s₂) (length s) (read_fraction s₂) _ (fraction_leaves s₂)
        (λ fraction s₃ h₃.
          then_leaves (length s₃) (length s) (read_exponent s₃) _ (exponent_leaves s₃)
            (λ exponent s₄ h₄. omega (arith, h₁, h₂, h₃, h₄)))))
