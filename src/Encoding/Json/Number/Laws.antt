-- ===== src/Encoding/Json/Number/Laws.antt =====
-- Reading a number that json.Marshal wrote.
use mathlib.Core.List.{append-nil}
use cosmos_pay.Prelude.{
  ℕ, zero, suc, ◌+◌, ◌-◌, ◌/◌, ◌%◌, ◌<◌, ◌≤◌, ◌≡◌, ◌≢◌, refl, Bool, true, not, ◌||◌, some, List, [],
  ◌∷◌, ◌++◌, arith, ltb, eqb, Bool-cases, inl, inr,
}
use cosmos_pay.Prelude.Words.{word, half_word}
use cosmos_pay.Encoding.Json.{decimal_from, decimal}
use cosmos_pay.Encoding.Json.Value.{done}
use cosmos_pay.Encoding.Json.Number.{
  is_digit, split_digits, read_number, digits_value, parse_uint, parse_int,
}

abbrev AreDigits : List ℕ → Type 0
AreDigits [] = Unit
AreDigits (c ∷ l) = (is_digit c ≡ true) × AreDigits l

-- a literal ends before what no number goes on with
abbrev pub stops : List ℕ → Bool
stops [] = true
stops (c ∷ s) = not (is_digit c || eqb c b'.' || eqb c b'e' || eqb c b'E')

-- digits with no zero in front of others
abbrev IsPlain : List ℕ → Type 0
IsPlain [] = ⊥
IsPlain (d ∷ ds) = (is_digit d ≡ true) × AreDigits ds × (d ≢ b'0')

pub decimal_from_small :
    (fuel n : ℕ) (acc : List ℕ) → n < 10 → decimal_from (suc fuel) n acc ≡ (n + b'0') ∷ acc
unfolding decimal_from
decimal_from_small fuel n acc h = ground arith

pub decimal_from_large :
    (fuel n : ℕ) (acc : List ℕ)
    → 10 ≤ n
    → decimal_from (suc fuel) n acc ≡ decimal_from fuel (n / 10) ((n % 10 + b'0') ∷ acc)
unfolding decimal_from
decimal_from_large fuel n acc h = ground arith

decimal_from-IsPlain :
    (fuel n : ℕ) (acc : List ℕ)
    → n < fuel
    → n ≢ 0
    → AreDigits acc
    → IsPlain (decimal_from fuel n acc)
decimal_from-IsPlain zero n acc h p ds = absurd (omega arith)
decimal_from-IsPlain (suc fuel) n acc h p ds = elim (Bool-cases (ltb n 10)) [
  | inl small ↦ rw (decimal_from_small fuel n acc (ground arith)) (ground arith, ds, ground arith)
  | inr large ↦ rw (decimal_from_large fuel n acc (ground arith)) (
      decimal_from-IsPlain fuel (n / 10) ((n % 10 + b'0') ∷ acc) (ground arith) (ground arith)
        (ground arith, ds))
]

split_digits-append :
    (ds s : List ℕ) → AreDigits ds → stops s ≡ true → split_digits (ds ++ s) ≡ (ds, s)
unfolding split_digits
split_digits-append [] [] d h = refl
split_digits-append [] (c ∷ s) d h = ground arith
split_digits-append (c ∷ ds) s d h = ground (arith, split_digits-append ds s d.1 h)

read_number-IsPlain :
    (l s : List ℕ) → IsPlain l → stops s ≡ true → read_number (l ++ s) ≡ done (l, s)
unfolding read_number
read_number-IsPlain [] s p h = elim p [ ]
read_number-IsPlain (d ∷ ds) s p h =
    let split = split_digits-append (d ∷ ds) s (p.0, p.1) h in ground (arith, split, append-nil ds)

-- the same behind a minus sign
read_number_minus-IsPlain :
    (l s : List ℕ) → IsPlain l → stops s ≡ true → read_number (b'-' ∷ (l ++ s)) ≡ done (b'-' ∷ l, s)
unfolding read_number
read_number_minus-IsPlain [] s p h = elim p [ ]
read_number_minus-IsPlain (d ∷ ds) s p h =
    let split = split_digits-append (d ∷ ds) s (p.0, p.1) h in ground (arith, split, append-nil ds)

read_number_zero :
    (s : List ℕ)
    → stops s ≡ true
    → (read_number (b'0' ∷ s) ≡ done (b'0' ∷ [], s))
      × (read_number (b'-' ∷ b'0' ∷ s) ≡ done (b'-' ∷ b'0' ∷ [], s))
unfolding read_number
read_number_zero [] h = (refl, refl)
read_number_zero (c ∷ s) h = (ground arith, ground arith)

decimal_zero : decimal 0 ≡ b'0' ∷ []
unfolding decimal
decimal_zero = refl

decimal-IsPlain : (n : ℕ) → n ≢ 0 → IsPlain (decimal n)
unfolding decimal
decimal-IsPlain n p = decimal_from-IsPlain (suc n) n [] (omega arith) p tt

-- A number reads back as its literal, with or without a sign, in front of anything that stops it.
pub read_number-decimal :
    (n : ℕ) (s : List ℕ)
    → stops s ≡ true
    → (read_number (decimal n ++ s) ≡ done (decimal n, s))
      × (read_number (b'-' ∷ (decimal n ++ s)) ≡ done (b'-' ∷ decimal n, s))
read_number-decimal zero s h = rw decimal_zero (read_number_zero s h)
read_number-decimal (suc n) s h =
    let plain = decimal-IsPlain (suc n) (λ e. absurd (omega arith)) in
    (
      read_number-IsPlain (decimal (suc n)) s plain h,
      read_number_minus-IsPlain (decimal (suc n)) s plain h,
    )

digits_value-decimal_from :
    (fuel n : ℕ) (acc : List ℕ)
    → n < fuel
    → digits_value 0 (decimal_from fuel n acc) ≡ digits_value n acc
unfolding digits_value
digits_value-decimal_from zero n acc h = absurd (omega arith)
digits_value-decimal_from (suc fuel) n acc h = elim (Bool-cases (ltb n 10)) [
  | inl small ↦ rw (decimal_from_small fuel n acc (ground arith)) (ground arith)
  | inr large ↦ ground (
    arith,
    decimal_from_large fuel n acc,
    digits_value-decimal_from fuel (n / 10) ((n % 10 + b'0') ∷ acc),
  )
]

pub digits_value-decimal : (n : ℕ) → digits_value 0 (decimal n) ≡ some n
unfolding decimal digits_value
digits_value-decimal n = digits_value-decimal_from (suc n) n [] (omega arith)

-- A literal that json.Marshal wrote has the value that was written.
pub parse_uint-decimal : (limit n : ℕ) → n < limit → parse_uint limit (decimal n) ≡ some n
unfolding parse_uint
parse_uint-decimal limit n h = ground (arith, digits_value-decimal n)

pub first_digit : (n : ℕ) → (d : ℕ) × (ds : List ℕ) × (decimal n ≡ d ∷ ds) × (is_digit d ≡ true)
first_digit zero = (b'0', [], decimal_zero, refl)
first_digit (suc n) =
    of_plain (decimal (suc n)) (decimal-IsPlain (suc n) (λ e. absurd (omega arith)))
  where
    of_plain :
        (l : List ℕ) → IsPlain l → (d : ℕ) × (ds : List ℕ) × (l ≡ d ∷ ds) × (is_digit d ≡ true)
    of_plain [] p = elim p [ ]
    of_plain (d ∷ ds) p = (d, ds, refl, p.0)

pub parse_int-decimal : (n : ℕ) → n < half_word → parse_int (decimal n) ≡ some n
unfolding parse_int
parse_int-decimal n h =
    let (d, ds, shape, digit) = first_digit n in
    let read = parse_uint-decimal half_word n h in ground (arith, shape, read)

pub parse_int-minus :
    (n : ℕ) → half_word ≤ n → n < word → parse_int (b'-' ∷ decimal (word - n)) ≡ some n
unfolding parse_int
parse_int-minus n h k = ground (arith, digits_value-decimal (word - n))
