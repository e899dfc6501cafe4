-- ===== src/Encoding/Json/Value.antt =====
-- JSON values as Go's encoding/json reads them: a number keeps its literal, which a decoder reads by
-- the type it decodes to. A parser gives a value and the bytes behind it.
use cosmos_pay.Prelude.{ℕ, String, Bool, ◌||◌, List, [], ◌∷◌, eqb, if◌then◌else◌}

mutual
  pub data Value : Type 0 where
    null : Value
    bool : Bool → Value
    number : List ℕ → Value
    text : String → Value
    array : Values → Value
    object : Fields → Value

  pub data Values : Type 0 where
    no_values : Values
    value : Value → Values → Values

  pub data Fields : Type 0 where
    no_fields : Fields
    field : String → Value → Fields → Fields

-- `bad` is a syntax error; `spent` is the end of the fuel and has no counterpart in Go.
pub data Parsed {ℓ} (A : Type ℓ) : Type ℓ where
  done : A → Parsed A
  bad spent : Parsed A

infixl 5 ◌>>=◌
abbrev pub ◌>>=◌ {ℓ κ} : {A : Type ℓ} {B : Type κ} → Parsed A → (A → Parsed B) → Parsed B
done a >>= f = f a
bad >>= f = bad
spent >>= f = spent

abbrev pub Parser {ℓ} : Type ℓ → Type ℓ
Parser A = List ℕ → Parsed (A × List ℕ)

abbrev pub is_space : ℕ → Bool
is_space c = eqb c b' ' || eqb c 9 || eqb c 10 || eqb c 13

unfoldable pub skip_space : List ℕ → List ℕ
skip_space [] = []
skip_space (c ∷ s) = let rest = skip_space s in if is_space c then rest else c ∷ s
