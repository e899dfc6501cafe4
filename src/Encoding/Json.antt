-- ===== src/Encoding/Json.antt =====
-- json.Marshal of Go's encoding/json, for the values that the program marshals: objects with their
-- members in the order of the struct, strings, integers and arrays. A text is bytes.
-- Strings are escaped as Go 1.22 does, with HTML escaping on.
pub mod Value
pub mod Text
pub mod Number
pub mod Parse
pub mod Struct
pub mod Indent
pub mod Bytes
pub mod Unique
use Prim.Native.String.{String}
use cosmos_pay.Prelude.{
  ℕ, zero, suc, ◌+◌, ◌-◌, ◌/◌, ◌%◌, Bool, true, false, ◌||◌, List, [], ◌∷◌, ◌++◌, ltb, eqb,
  if◌then◌else◌,
}
use cosmos_pay.Prelude.Text.{codes}
use cosmos_pay.Encoding.Utf8.{char_bytes}

unfoldable pub hex_digit : ℕ → ℕ
hex_digit n = if ltb n 10 then n + b'0' else n - 10 + b'a'

-- \u followed by four hexadecimal digits
unfoldable pub unicode_escape : ℕ → List ℕ
unfolding hex_digit
unicode_escape c =
    b'\\'
    ∷ b'u'
    ∷ hex_digit (c / 4096)
    ∷ hex_digit (c / 256 % 16)
    ∷ hex_digit (c / 16 % 16)
    ∷ hex_digit (c % 16)
    ∷ []

-- the code points that are escaped by number
unfoldable pub is_numbered : ℕ → Bool
is_numbered c = ltb c 32 || eqb c b'<' || eqb c b'>' || eqb c b'&' || eqb c 0x2028 || eqb c 0x2029

unfoldable pub escape_other : ℕ → List ℕ
unfolding char_bytes unicode_escape is_numbered
escape_other c = if is_numbered c then unicode_escape c else char_bytes c

-- the control characters with a letter
unfoldable pub escape_control : ℕ → List ℕ
unfolding escape_other
escape_control c =
    if eqb c 8
    then b'\\' ∷ b'b' ∷ []
    else if eqb c 12
    then b'\\' ∷ b'f' ∷ []
    else if eqb c 10
    then b'\\' ∷ b'n' ∷ []
    else if eqb c 13
    then b'\\' ∷ b'r' ∷ []
    else if eqb c 9
    then b'\\' ∷ b't' ∷ []
    else escape_other c

-- one code point of a string
unfoldable pub escape : ℕ → List ℕ
unfolding escape_control
escape c = if eqb c b'"' || eqb c b'\\' then b'\\' ∷ c ∷ [] else escape_control c

unfoldable pub escape_all : List ℕ → List ℕ
unfolding escape
escape_all [] = []
escape_all (c ∷ s) = escape c ++ escape_all s

-- the decimal digits of n before `acc`; the fuel is more than n
unfoldable pub decimal_from : ℕ → ℕ → List ℕ → List ℕ
decimal_from zero n acc = acc
decimal_from (suc fuel) n acc = elim (ltb n 10) [
  | true ↦ (n + b'0') ∷ acc
  | false ↦ decimal_from fuel (n / 10) ((n % 10 + b'0') ∷ acc)
]

-- A number has at most as many digits as it has units, and one more for zero.
unfoldable pub decimal : ℕ → List ℕ
unfolding decimal_from
decimal n = decimal_from (suc n) n []

mutual
  pub data Json : Type 0 where
    null : Json
    str : String → Json
    num : ℕ → Json
    -- a number with a sign in front
    neg : ℕ → Json
    bool : Bool → Json
    arr : Items → Json
    obj : Members → Json

  pub data Items : Type 0 where
    nil : Items
    cons : Json → Items → Items

  pub data Members : Type 0 where
    end : Members
    member : String → Json → Members → Members

abbrev pub items : List Json → Items
items [] = nil
items (x ∷ xs) = cons x (items xs)

abbrev pub members : List (String × Json) → Members
members [] = end
members ((k, v) ∷ ms) = member k v (members ms)

abbrev pub quoted : String → List ℕ
quoted s = b'"' ∷ escape_all (codes s) ++ b'"' ∷ []

unfoldable mutual
  unfolding escape_all decimal

  pub print : Json → List ℕ
  print null = b'n' ∷ b'u' ∷ b'l' ∷ b'l' ∷ []
  print (str s) = quoted s
  print (num n) = decimal n
  print (neg n) = b'-' ∷ decimal n
  print (bool true) = b't' ∷ b'r' ∷ b'u' ∷ b'e' ∷ []
  print (bool false) = b'f' ∷ b'a' ∷ b'l' ∷ b's' ∷ b'e' ∷ []
  print (arr xs) = b'[' ∷ print_items xs ++ b']' ∷ []
  print (obj ms) = b'{' ∷ print_members ms ++ b'}' ∷ []

  pub print_items : Items → List ℕ
  print_items nil = []
  print_items (cons x nil) = print x
  print_items (cons x xs) = print x ++ b',' ∷ print_items xs

  pub print_members : Members → List ℕ
  print_members end = []
  print_members (member k v end) = quoted k ++ b':' ∷ print v
  print_members (member k v ms) = quoted k ++ b':' ∷ print v ++ b',' ∷ print_members ms
