-- ===== src/Amounts/Laws.antt =====
-- cmpAmounts of facilitator/verify.go against the order of the integers.
use Prim.Native.Nat.{Ordering}
use cosmos_pay.Prelude.{◌≤◌, String, ◌≡◌, refl, ◌↔◌, false, none, some, arith}
use cosmos_pay.Amounts.{BigInt, pos, negsuc, set_string, cmp_amounts, amount_exceeds, amount_below}

-- the order of the integers
abbrev pub Le : BigInt → BigInt → Type 0
Le (pos m) (pos n) = m ≤ n
Le (pos m) (negsuc n) = ⊥
Le (negsuc m) (pos n) = Unit
Le (negsuc m) (negsuc n) = n ≤ m

-- Where both amounts parse, `cmpAmounts(a, b) > 0` is false exactly if the integer of a is at
-- most that of b.
pub amount_exceeds_iff :
    (a b : String) (x y : BigInt)
    → set_string a ≡ some x
    → set_string b ≡ some y
    → (amount_exceeds a b ≡ false) ↔ Le x y
unfolding amount_exceeds
amount_exceeds_iff a b (pos m) (pos n) p q = ground arith
amount_exceeds_iff a b _ _ p q = ground arith

pub amount_below_iff :
    (a b : String) (x y : BigInt)
    → set_string a ≡ some x
    → set_string b ≡ some y
    → (amount_below a b ≡ false) ↔ Le y x
unfolding amount_below
amount_below_iff a b (pos m) (pos n) p q = ground arith
amount_below_iff a b _ _ p q = ground arith

tests :
    (set_string "10000" ≡ some (pos 10000))
    × (set_string "-5" ≡ some (negsuc 4))
    × (set_string "1.5" ≡ none)
    × (set_string "" ≡ none)
    × (cmp_amounts "9" "10" ≡ Ordering.lt)
    × (cmp_amounts "1.5" "1" ≡ Ordering.eq)
unfolding set_string cmp_amounts
tests = (refl, refl, refl, refl, refl, refl)

-- No amount exceeds itself, whether it parses or not.
pub amount_exceeds_self : (a : String) → amount_exceeds a a ≡ false
unfolding amount_exceeds
amount_exceeds_self a = ground arith
