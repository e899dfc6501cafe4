-- ===== src/Encoding/Json/Bytes.antt =====
-- What json.Marshal writes is bytes.
use cosmos_pay.Prelude.{
  ℕ, zero, suc, ◌+◌, ◌/◌, ◌%◌, ◌<◌, ◌≡◌, refl, String, true, false, List, [], ◌∷◌, ◌++◌, arith, All,
  Bool-cases, inl, inr, ltb,
}
use cosmos_pay.Prelude.Text.{codes, is_scalar, AreScalars, codes-AreScalars}
use cosmos_pay.Encoding.Utf8.{char_bytes}
use cosmos_pay.Encoding.Json.{
  Json, Items, Members, nil, cons, end, member, null, str, num, neg, bool, arr, obj, hex_digit,
  unicode_escape, is_numbered, escape_other, escape_control, escape, escape_all, decimal_from,
  decimal, quoted, print, print_items, print_members,
}
use cosmos_pay.Encoding.Json.Number.Laws.{decimal_from_small, decimal_from_large}

abbrev pub AreBytes : List ℕ → Type 0
AreBytes s = All (λ b. b < 256) s

append-AreBytes : (s t : List ℕ) → AreBytes s → AreBytes t → AreBytes (s ++ t)
append-AreBytes [] t h k = k
append-AreBytes (b ∷ s) t h k = (h.0, append-AreBytes s t h.1 k)

char_bytes-AreBytes : (c : ℕ) → is_scalar c ≡ true → AreBytes (char_bytes c)
unfolding char_bytes
char_bytes-AreBytes c h = ground arith

hex_digit-lt : (n : ℕ) → n < 16 → hex_digit n < 256
unfolding hex_digit
hex_digit-lt n h = ground arith

unicode_escape-AreBytes : (c : ℕ) → c < 65536 → AreBytes (unicode_escape c)
unfolding unicode_escape
unicode_escape-AreBytes c h =
    let first = hex_digit-lt (c / 4096) (omega arith) in
    let second = hex_digit-lt (c / 256 % 16) (omega arith) in
    let third = hex_digit-lt (c / 16 % 16) (omega arith) in
    let fourth = hex_digit-lt (c % 16) (omega arith) in
    (omega arith, (omega arith, (first, (second, (third, (fourth, tt))))))

escape_other-AreBytes : (c : ℕ) → is_scalar c ≡ true → AreBytes (escape_other c)
unfolding escape_other is_numbered
escape_other-AreBytes c h = ground (arith, unicode_escape-AreBytes c, char_bytes-AreBytes c h)

escape-AreBytes : (c : ℕ) → is_scalar c ≡ true → AreBytes (escape c)
unfolding escape escape_control
escape-AreBytes c h = ground (arith, escape_other-AreBytes c h)

escape_all-AreBytes : (cs : List ℕ) → AreScalars cs → AreBytes (escape_all cs)
unfolding escape_all
escape_all-AreBytes [] h = tt
escape_all-AreBytes (c ∷ cs) h =
    append-AreBytes (escape c) (escape_all cs) (escape-AreBytes c h.0) (escape_all-AreBytes cs h.1)

decimal_from_spent : (n : ℕ) (acc : List ℕ) → decimal_from 0 n acc ≡ acc
unfolding decimal_from
decimal_from_spent n acc = refl

decimal_from-AreBytes :
    (fuel n : ℕ) (acc : List ℕ) → AreBytes acc → AreBytes (decimal_from fuel n acc)
decimal_from-AreBytes zero n acc h = rw decimal_from_spent h
decimal_from-AreBytes (suc fuel) n acc h = elim (Bool-cases (ltb n 10)) [
  | inl small ↦ rw (decimal_from_small fuel n acc (ground arith)) (ground arith, h)
  | inr large ↦
      rw (decimal_from_large fuel n acc (ground arith))
        (decimal_from-AreBytes fuel (n / 10) ((n % 10 + b'0') ∷ acc) (omega arith, h))
]

decimal-AreBytes : (n : ℕ) → AreBytes (decimal n)
unfolding decimal
decimal-AreBytes n = decimal_from-AreBytes (suc n) n [] tt

quoted-AreBytes : (s : String) → AreBytes (quoted s)
quoted-AreBytes s = (
  omega arith,
  append-AreBytes (escape_all (codes s)) (b'"' ∷ [])
      (escape_all-AreBytes (codes s) (codes-AreScalars s)) (omega arith, tt),
)

mutual
  unfolding print

  pub print-AreBytes : (v : Json) → AreBytes (print v)
  print-AreBytes null = ground arith
  print-AreBytes (str s) = quoted-AreBytes s
  print-AreBytes (num n) = decimal-AreBytes n
  print-AreBytes (neg n) = (omega arith, decimal-AreBytes n)
  print-AreBytes (bool true) = ground arith
  print-AreBytes (bool false) = ground arith
  print-AreBytes (arr xs) = (
    omega arith,
    append-AreBytes (print_items xs) (b']' ∷ []) (print_items-AreBytes xs) (omega arith, tt),
  )
  print-AreBytes (obj ms) = (
    omega arith,
    append-AreBytes (print_members ms) (b'}' ∷ []) (print_members-AreBytes ms) (omega arith, tt),
  )

  print_items-AreBytes : (xs : Items) → AreBytes (print_items xs)
  print_items-AreBytes nil = tt
  print_items-AreBytes (cons x nil) = print-AreBytes x
  print_items-AreBytes (cons x (cons y ys)) =
      append-AreBytes (print x) (b',' ∷ print_items (cons y ys)) (print-AreBytes x)
        (omega arith, print_items-AreBytes (cons y ys))

  print_members-AreBytes : (ms : Members) → AreBytes (print_members ms)
  print_members-AreBytes end = tt
  print_members-AreBytes (member k v end) =
      append-AreBytes (quoted k) (b':' ∷ print v) (quoted-AreBytes k)
        (omega arith, print-AreBytes v)
  print_members-AreBytes (member k v (member j w ms)) =
      append-AreBytes (quoted k ++ b':' ∷ print v) (b',' ∷ print_members (member j w ms))
        (append-AreBytes (quoted k) (b':' ∷ print v) (quoted-AreBytes k)
          (omega arith, print-AreBytes v))
        (omega arith, print_members-AreBytes (member j w ms))
