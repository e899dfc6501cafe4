-- ===== src/Prelude/Text.antt =====
-- Go's string operations that the program uses, on the native texts: `+`, `strings.TrimPrefix`,
-- and the absence of a character.
use Prim.Native.Nat.{ℕ, zero, suc, ◌%◌, compare, Ordering}
use mathlib.Core.List.{List}
use Prim.Native.Char.{Char, char, code, IsScalar}
use Prim.Native.String.{String, [], ◌∷◌, ◌++◌}
use mathlib.Core.Path.{◌≡◌, refl, ap, ap₂, sym, ◌∙◌}
use mathlib.Core.Logic.{◌≢◌, inl, inr}
use mathlib.Core.Bool.{Bool, true, false, ◌||◌, ◌&&◌}
use mathlib.Core.Option.{Option, none, some, get_or}
use native.Mathlib.Omega.{arith}
use text.Mathlib.TextLemmas.{nil-append, cons-append, cons-eq-cons}
use text.Mathlib.TextEquality.{Char-path}
use cosmos_pay.Prelude.Tests.{Bool-cases, eqb, leb, ltb, if◌then◌else◌}

-- the code points of a text
abbrev pub codes : String → List ℕ
codes [] = List.[]
codes (c ∷ s) = List.◌∷◌ (code c) (codes s)

-- Equal code points make equal texts.
pub codes_injective : (s t : String) → codes s ≡ codes t → s ≡ t
codes_injective [] [] h = refl
codes_injective [] (d ∷ t) h = cc
codes_injective (c ∷ s) [] h = cc
codes_injective (c ∷ s) (d ∷ t) h =
    ap₂ ◌∷◌ (Char-path c d (ground arith)) (codes_injective s t (ground arith))

pub ascii-IsScalar : (n : ℕ) → IsScalar (n % 128)
ascii-IsScalar n = rw (below) tt
  where
    below : compare (n % 128) 55296 ≡ Ordering.lt
    below = ground arith

-- the ASCII character with this code
abbrev pub ascii : ℕ → Char
ascii n = char (n % 128) (ascii-IsScalar n)

-- a Unicode scalar value
abbrev pub is_scalar : ℕ → Bool
is_scalar n = ltb n 0xd800 || (ltb 0xdfff n && ltb n 0x110000)

pub IsScalar-of_is_scalar : (n : ℕ) → is_scalar n ≡ true → IsScalar n
IsScalar-of_is_scalar n h = elim (Bool-cases (ltb n 0xd800)) [
  | inl low ↦ let e : compare n 0xd800 ≡ Ordering.lt = ground arith in rw e tt
  | inr high ↦
      let e : compare n 0xd800 ≡ Ordering.gt = ground arith in
      let above : compare 0xdfff n ≡ Ordering.lt = ground arith in
      let below : compare n 0x110000 ≡ Ordering.lt = ground arith in rw (e, above, below) tt
]

abbrev char_if : (n : ℕ) (b : Bool) → is_scalar n ≡ b → Char
char_if n true h = char n (IsScalar-of_is_scalar n h)
char_if n false h = char 0xfffd tt

-- string(rune(n)): U+FFFD if n is not a scalar value
abbrev pub char_of : ℕ → Char
char_of n = char_if n (is_scalar n) refl

abbrev pub text_of : List ℕ → String
text_of List.[] = []
text_of (List.◌∷◌ n l) = char_of n ∷ text_of l

pub is_scalar-code : (c : Char) → is_scalar (code c) ≡ true
is_scalar-code (char n p) = ground arith

code-char_if :
    (n : ℕ) (b : Bool) (h : is_scalar n ≡ b) → is_scalar n ≡ true → code (char_if n b h) ≡ n
code-char_if n true h k = refl
code-char_if n false h k = absurd (ground arith)

pub text_of-codes : (s : String) → text_of (codes s) ≡ s
text_of-codes [] = refl
text_of-codes (c ∷ s) =
    ap₂ ◌∷◌
      (Char-path (char_of (code c)) c
        (code-char_if (code c) (is_scalar (code c)) refl (is_scalar-code c)))
      (text_of-codes s)

abbrev pub AreScalars : List ℕ → Type 0
AreScalars List.[] = Unit
AreScalars (List.◌∷◌ n l) = (is_scalar n ≡ true) × AreScalars l

pub codes-AreScalars : (s : String) → AreScalars (codes s)
codes-AreScalars [] = tt
codes-AreScalars (c ∷ s) = (is_scalar-code c, codes-AreScalars s)

-- the ASCII text with these codes
abbrev pub ascii_text : List ℕ → String
ascii_text List.[] = []
ascii_text (List.◌∷◌ n l) = ascii n ∷ ascii_text l

-- the text with the prefix taken off, if it starts with it
abbrev pub strip_prefix : String → String → Option String
strip_prefix [] s = some s
strip_prefix (c ∷ p) [] = none
strip_prefix (c ∷ p) (d ∷ s) = if eqb (code c) (code d) then strip_prefix p s else none

-- strings.TrimPrefix(s, p)
unfoldable pub trim_prefix : String → String → String
trim_prefix s p = get_or (strip_prefix p s) s

pub strip_prefix-append : (p s : String) → strip_prefix p (p ++ s) ≡ some s
strip_prefix-append [] s = ap some (nil-append s)
strip_prefix-append (c ∷ p) s = rw cons-append (ground (arith, strip_prefix-append p s))

pub trim_prefix-append : (p s : String) → trim_prefix (p ++ s) p ≡ s
unfolding trim_prefix
trim_prefix-append p s = rw strip_prefix-append refl

pub append_of_strip_prefix : (p s r : String) → strip_prefix p s ≡ some r → s ≡ p ++ r
append_of_strip_prefix [] s r h = cc (nil-append r)
append_of_strip_prefix (c ∷ p) [] r h = cc
append_of_strip_prefix (c ∷ p) (d ∷ s) r h =
    ground (arith, append_of_strip_prefix p s r, Char-path c d, cons-append c p r)

-- no character of the text has this code
abbrev pub Lacks : ℕ → String → Type 0
Lacks k [] = Unit
Lacks k (c ∷ s) = (code c ≢ k) × Lacks k s

-- A text up to the first separator is determined by the whole, and so is the rest.
pub split_unique :
    (sep : Char) (a b s t : String)
    → Lacks (code sep) a
    → Lacks (code sep) b
    → a ++ (sep ∷ s) ≡ b ++ (sep ∷ t)
    → (a ≡ b) × (s ≡ t)
split_unique sep [] [] s t ha hb h =
    (refl, (cons-eq-cons.0 (sym (nil-append (sep ∷ s)) ∙ h ∙ nil-append (sep ∷ t))).1)
split_unique sep [] (d ∷ b) s t ha hb h =
    let e = cons-eq-cons.0 (sym (nil-append (sep ∷ s)) ∙ h ∙ cons-append d b (sep ∷ t)) in
    absurd (hb.0 (ap code (sym e.0)))
split_unique sep (c ∷ a) [] s t ha hb h =
    let e = cons-eq-cons.0 (sym (cons-append c a (sep ∷ s)) ∙ h ∙ nil-append (sep ∷ t)) in
    absurd (ha.0 (ap code e.0))
split_unique sep (c ∷ a) (d ∷ b) s t ha hb h =
    let e = cons-eq-cons.0 (sym (cons-append c a (sep ∷ s)) ∙ h ∙ cons-append d b (sep ∷ t)) in
    let ih = split_unique sep a b s t ha.1 hb.1 e.1 in (ap₂ ◌∷◌ e.0 ih.0, ih.1)

-- strings.Contains(s, sub)
abbrev is_prefix : Option String → Bool
is_prefix none = false
is_prefix (some r) = true

unfoldable pub contains : String → String → Bool
contains sub [] = is_prefix (strip_prefix sub [])
contains sub (c ∷ s) = is_prefix (strip_prefix sub (c ∷ s)) || contains sub s

-- unicode.IsSpace
unfoldable pub is_space : ℕ → Bool
is_space c =
    (leb 9 c && leb c 13)
    || eqb c 32
    || eqb c 0x85
    || eqb c 0xa0
    || eqb c 0x1680
    || (leb 0x2000 c && leb c 0x200a)
    || eqb c 0x2028
    || eqb c 0x2029
    || eqb c 0x202f
    || eqb c 0x205f
    || eqb c 0x3000

abbrev trim_left : String → String
trim_left [] = []
trim_left (c ∷ s) = let rest = trim_left s in if is_space (code c) then rest else c ∷ s

-- a character in front of a text that is trimmed on the right
abbrev before_trimmed : Char → String → String
before_trimmed c [] = if is_space (code c) then [] else c ∷ []
before_trimmed c (d ∷ s) = c ∷ d ∷ s

abbrev trim_right : String → String
trim_right [] = []
trim_right (c ∷ s) = before_trimmed c (trim_right s)

-- strings.TrimSpace
unfoldable pub trim_space : String → String
unfolding is_space
trim_space s = trim_right (trim_left s)

-- strings.Repeat
unfoldable pub repeat_text : String → ℕ → String
repeat_text s zero = []
repeat_text s (suc n) = s ++ repeat_text s n

tests : (trim_space " a b\n" ≡ "a b") × (trim_space "\t\n" ≡ "")
unfolding trim_space
tests = (refl, refl)
