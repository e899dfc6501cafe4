-- ===== src/Amounts.antt =====
-- cmpAmounts of facilitator/verify.go, over `big.Int.SetString(s, 10)`: an optional sign, then
-- decimal digits to the end, at least one.
pub mod Laws
use Prim.Native.Nat.{compare, Ordering}
use Prim.Native.Char.{Char, code}
use Prim.Native.String.{String, [], ◌∷◌}
use cosmos_pay.Prelude.{
  ℕ, suc, ◌+◌, ◌-◌, ◌*◌, Bool, true, false, ◌&&◌, Option, none, some, ltb, leb, eqb, if◌then◌else◌,
}

-- big.Int: sign and magnitude, and no negative zero
pub data BigInt : Type 0 where
  pos : ℕ → BigInt
  negsuc : ℕ → BigInt

abbrev pub is_digit : ℕ → Bool
is_digit c = leb b'0' c && leb c b'9'

-- the digits to the end of the text
unfoldable pub digits_from : ℕ → String → Option ℕ
digits_from acc [] = some acc
digits_from acc (c ∷ s) =
    let rest = digits_from (acc * 10 + (code c - b'0')) s in
    if is_digit (code c) then rest else none

-- at least one digit
unfoldable pub parse_digits : String → Option ℕ
unfolding digits_from
parse_digits [] = none
parse_digits (c ∷ s) = digits_from 0 (c ∷ s)

abbrev pub as_positive : Option ℕ → Option BigInt
as_positive none = none
as_positive (some n) = some (pos n)

abbrev pub negate : ℕ → BigInt
negate n = if eqb n 0 then pos 0 else negsuc (n - 1)

abbrev pub as_negative : Option ℕ → Option BigInt
as_negative none = none
as_negative (some n) = some (negate n)

-- new(big.Int).SetString(s, 10); `nil` is `none`
unfoldable pub set_string : String → Option BigInt
unfolding parse_digits
set_string [] = none
set_string (c ∷ s) =
    if eqb (code c) b'-'
    then as_negative (parse_digits s)
    else if eqb (code c) b'+'
    then as_positive (parse_digits s)
    else as_positive (parse_digits (c ∷ s))

-- x.Cmp(y)
abbrev pub cmp : BigInt → BigInt → Ordering
cmp (pos m) (pos n) = compare m n
cmp (pos m) (negsuc n) = Ordering.gt
cmp (negsuc m) (pos n) = Ordering.lt
cmp (negsuc m) (negsuc n) = compare n m

abbrev pub cmp_parsed : Option BigInt → Option BigInt → Ordering
cmp_parsed (some x) (some y) = cmp x y
cmp_parsed _ _ = Ordering.eq

-- cmpAmounts(a, b); an amount that does not parse makes the result 0
unfoldable pub cmp_amounts : String → String → Ordering
cmp_amounts a b = cmp_parsed (set_string a) (set_string b)

-- cmpAmounts(a, b) > 0
unfoldable pub amount_exceeds : String → String → Bool
unfolding cmp_amounts
amount_exceeds a b = elim (cmp_amounts a b) [ Ordering.gt ↦ true | _ ↦ false ]

-- cmpAmounts(a, b) < 0
unfoldable pub amount_below : String → String → Bool
unfolding cmp_amounts
amount_below a b = elim (cmp_amounts a b) [ Ordering.lt ↦ true | _ ↦ false ]
