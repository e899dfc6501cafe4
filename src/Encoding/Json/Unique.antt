-- ===== src/Encoding/Json/Unique.antt =====
-- What json.Marshal writes for a value determines the parts of the value, one member at a time.
-- Each lemma takes a piece off two texts that are equal, with any rest behind it.
use mathlib.Core.List.{append_assoc}
use cosmos_pay.Prelude.{ℕ, ◌≡◌, refl, sym, ap, ◌∙◌, true, String, List, [], ◌∷◌, ◌++◌, arith}
use cosmos_pay.Prelude.Text.{codes}
use cosmos_pay.Encoding.Json.{
  Json, str, num, arr, obj, nil, cons, Members, end, member, escape_all, decimal, print,
  print_members,
}
use cosmos_pay.Encoding.Json.Value.{Parsed, done}
use cosmos_pay.Encoding.Json.Text.{read_text}
use cosmos_pay.Encoding.Json.Text.Laws.{read_text-escape_all}
use cosmos_pay.Encoding.Json.Number.{read_number, digits_value}
use cosmos_pay.Encoding.Json.Number.Laws.{stops, read_number-decimal, digits_value-decimal}

append_left_cancel {ℓ} : {A : Type ℓ} (l s t : List A) → l ++ s ≡ l ++ t → s ≡ t
append_left_cancel [] s t h = h
append_left_cancel (x ∷ l) s t h = append_left_cancel l s t (ground (arith, h))

done_injective {ℓ} : {A : Type ℓ} (x y : A) → Path (Parsed A) (done x) (done y) → x ≡ y
done_injective x y h = ground (arith, h)

pub str_unique :
    (a b : String) (s t : List ℕ) → print (str a) ++ s ≡ print (str b) ++ t → (a ≡ b) × (s ≡ t)
unfolding print
str_unique a b s t h =
    let tail : escape_all (codes a) ++ b'"' ∷ s ≡ escape_all (codes b) ++ b'"' ∷ t =
      ground (arith, simp append_assoc at h) in
    let same = ap read_text tail in
    ground (arith, same, read_text-escape_all a s, read_text-escape_all b t)

decimal_injective : (m n : ℕ) → decimal m ≡ decimal n → m ≡ n
decimal_injective m n h =
    ground (arith, digits_value-decimal m, digits_value-decimal n, ap (digits_value 0) h)

-- a number in front of two texts that end it
pub num_unique :
    (m n : ℕ) (s t : List ℕ)
    → stops s ≡ true
    → stops t ≡ true
    → print (num m) ++ s ≡ print (num n) ++ t
    → (m ≡ n) × (s ≡ t)
unfolding print
num_unique m n s t hs ht h =
    let same = ap read_number h in
    let read = (read_number-decimal m s hs).0 in
    let read' = (read_number-decimal n t ht).0 in
    let both = done_injective (decimal m, s) (decimal n, t) (sym read ∙ same ∙ read') in
    (decimal_injective m n (ap (λ p. p.0) both), ap (λ p. p.1) both)

-- the same value in front
pub value_unique : (v : Json) (s t : List ℕ) → print v ++ s ≡ print v ++ t → s ≡ t
value_unique v s t h = append_left_cancel (print v) s t h

pub obj_unique :
    (ms ms' : Members) (s t : List ℕ)
    → print (obj ms) ++ s ≡ print (obj ms') ++ t
    → print_members ms ++ b'}' ∷ s ≡ print_members ms' ++ b'}' ∷ t
unfolding print
obj_unique ms ms' s t h = ground (arith, simp append_assoc at h)

-- an array of one element
pub arr_unique :
    (v w : Json) (s t : List ℕ)
    → print (arr (cons v nil)) ++ s ≡ print (arr (cons w nil)) ++ t
    → print v ++ b']' ∷ s ≡ print w ++ b']' ∷ t
unfolding print
arr_unique v w s t h = ground (arith, simp append_assoc at h)

pub member_end :
    (k : String) (v w : Json) (s t : List ℕ)
    → print_members (member k v end) ++ s ≡ print_members (member k w end) ++ t
    → print v ++ s ≡ print w ++ t
unfolding print
member_end k v w s t h =
    let h' =
      append_left_cancel (escape_all (codes k)) (b'"' ∷ b':' ∷ (print v ++ s))
        (b'"' ∷ b':' ∷ (print w ++ t)) (ground (arith, simp append_assoc at h)) in
    ground (arith, h')

pub member_next :
    (k j : String) (v w x y : Json) (ms ms' : Members) (s t : List ℕ)
    → print_members (member k v (member j x ms)) ++ s
      ≡ print_members (member k w (member j y ms')) ++ t
    → print v ++ b',' ∷ (print_members (member j x ms) ++ s)
      ≡ print w ++ b',' ∷ (print_members (member j y ms') ++ t)
unfolding print
member_next k j v w x y ms ms' s t h =
    let h' =
      append_left_cancel (escape_all (codes k))
        (b'"' ∷ b':' ∷ (print v ++ b',' ∷ (print_members (member j x ms) ++ s)))
        (b'"' ∷ b':' ∷ (print w ++ b',' ∷ (print_members (member j y ms') ++ t)))
        (ground (arith, simp append_assoc at h)) in
    ground (arith, h')

-- a text, and the members after it
pub text_next :
    (k j a b : String) (x y : Json) (ms ms' : Members) (s t : List ℕ)
    → print_members (member k (str a) (member j x ms)) ++ s
      ≡ print_members (member k (str b) (member j y ms')) ++ t
    → (a ≡ b) × (print_members (member j x ms) ++ s ≡ print_members (member j y ms') ++ t)
text_next k j a b x y ms ms' s t h =
    let r = str_unique a b _ _ (member_next k j (str a) (str b) x y ms ms' s t h) in
    ground (arith, r)

-- a number, and the members after it
pub number_next :
    (k j : String) (m n : ℕ) (x y : Json) (ms ms' : Members) (s t : List ℕ)
    → print_members (member k (num m) (member j x ms)) ++ s
      ≡ print_members (member k (num n) (member j y ms')) ++ t
    → (m ≡ n) × (print_members (member j x ms) ++ s ≡ print_members (member j y ms') ++ t)
number_next k j m n x y ms ms' s t h =
    let r = num_unique m n _ _ refl refl (member_next k j (num m) (num n) x y ms ms' s t h) in
    ground (arith, r)

-- the same value, and the members after it
pub same_next :
    (k j : String) (v x y : Json) (ms ms' : Members) (s t : List ℕ)
    → print_members (member k v (member j x ms)) ++ s
      ≡ print_members (member k v (member j y ms')) ++ t
    → print_members (member j x ms) ++ s ≡ print_members (member j y ms') ++ t
same_next k j v x y ms ms' s t h =
    let r = value_unique v _ _ (member_next k j v v x y ms ms' s t h) in ground (arith, r)

-- an object that is the whole text
pub obj_whole :
    (ms ms' : Members)
    → print (obj ms) ≡ print (obj ms')
    → print_members ms ++ b'}' ∷ [] ≡ print_members ms' ++ b'}' ∷ []
unfolding print
obj_whole ms ms' h = ground (arith, h)
