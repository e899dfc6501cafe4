-- ===== src/Encoding/Json/Parse/Fuel.antt =====
-- The fuel of the parser is enough for every text: three units for each byte, and one more.
use cosmos_pay.Prelude.{
  ℕ, zero, suc, ◌+◌, ◌*◌, ◌<◌, ◌≤◌, ◌≡◌, ◌≢◌, refl, String, Bool, true, false, List, [], ◌∷◌, arith,
  length,
}
use cosmos_pay.Encoding.Json.Value.{Value, null, bool, Parsed, done, bad, spent, skip_space}
use cosmos_pay.Encoding.Json.Text.{read_text}
use cosmos_pay.Encoding.Json.Number.{read_number}
use cosmos_pay.Encoding.Json.Parse.{
  start_of, is_next, rest_of, expect, expect_word, read_key, parse_value, parse_items,
  parse_more_items, parse_members, parse_more_members, fuel_for,
}
use cosmos_pay.Encoding.Json.Parse.{
  Start, starts_text, starts_array, starts_object, starts_number, starts_true, starts_false,
  starts_null, starts_nothing,
}
use cosmos_pay.Encoding.Json.Parse.Leaves.{
  LeavesAtMost, more, then_leaves, le-length-skip_space, lt-length-rest_of, word_leaves,
  expect_leaves, text_leaves, number_leaves,
}

start_leaves :
    (n : ℕ) (st : Start) (a b c d e f g : Parsed (Value × List ℕ))
    → LeavesAtMost n a
    → (st ≡ starts_array → LeavesAtMost n b)
    → (st ≡ starts_object → LeavesAtMost n c)
    → LeavesAtMost n d
    → LeavesAtMost n e
    → LeavesAtMost n f
    → LeavesAtMost n g
    → LeavesAtMost n (elim st [
      | starts_text ↦ a
      | starts_array ↦ b
      | starts_object ↦ c
      | starts_number ↦ d
      | starts_true ↦ e
      | starts_false ↦ f
      | starts_null ↦ g
      | starts_nothing ↦ bad
    ])
start_leaves n starts_text a b c d e f g ha hb hc hd he hf hg = ha
start_leaves n starts_array a b c d e f g ha hb hc hd he hf hg = hb refl
start_leaves n starts_object a b c d e f g ha hb hc hd he hf hg = hc refl
start_leaves n starts_number a b c d e f g ha hb hc hd he hf hg = hd
start_leaves n starts_true a b c d e f g ha hb hc hd he hf hg = he
start_leaves n starts_false a b c d e f g ha hb hc hd he hf hg = hf
start_leaves n starts_null a b c d e f g ha hb hc hd he hf hg = hg
start_leaves n starts_nothing a b c d e f g ha hb hc hd he hf hg = tt

next_leaves {ℓ} :
    {A : Type ℓ} (n : ℕ) (c : Bool) (p q : Parsed (A × List ℕ))
    → (c ≡ true → LeavesAtMost n p)
    → LeavesAtMost n q
    → LeavesAtMost n (elim c [ true ↦ p | false ↦ q ])
next_leaves n true p q h k = h refl
next_leaves n false p q h k = k

array_lt : (s : List ℕ) → start_of s ≡ starts_array → length (rest_of s) < length s
unfolding start_of
array_lt [] h = absurd (ground (arith, h))
array_lt (c ∷ s) h = omega arith

object_lt : (s : List ℕ) → start_of s ≡ starts_object → length (rest_of s) < length s
unfolding start_of
object_lt [] h = absurd (ground (arith, h))
object_lt (c ∷ s) h = omega arith

le-length-rest_of : (s : List ℕ) → length (rest_of s) ≤ length s
le-length-rest_of [] = omega arith
le-length-rest_of (c ∷ s) = omega arith

literal_leaves :
    (l : List ℕ) (v : Value) (s : List ℕ) → LeavesAtMost (length s) (expect_word l v (skip_space s))
literal_leaves l v s =
    more (length (skip_space s)) (length s) (expect_word l v (skip_space s))
      (le-length-skip_space s) (word_leaves l v (skip_space s))

key_leaves : (s : List ℕ) → LeavesAtMost (length s) (read_key s)
key_leaves s =
    then_leaves (length s) (length s) (expect b'"' s) read_text_behind (expect_leaves b'"' s)
      (λ u rest le. more (length rest) (length s) (read_text rest) le (text_leaves rest))
  where
    read_text_behind : Unit {0} × List ℕ → Parsed (String × List ℕ)
    read_text_behind (u, rest) = read_text rest

mutual
  unfolding parse_value

  value_leaves : (f : ℕ) (s : List ℕ) → 3 * length s < f → LeavesAtMost (length s) (parse_value f s)
  value_leaves zero s h = absurd (omega arith)
  value_leaves (suc f) s h =
      let skipped = le-length-skip_space s in
      let left = le-length-rest_of (skip_space s) in
      let inside = rest_of (skip_space s) in
      start_leaves (length s) (start_of (skip_space s)) _ _ _ _ _ _ _
        (then_leaves (length inside) (length s) (read_text inside) _ (text_leaves inside)
          (λ t rest le. omega (arith, skipped, left, le)))
        (λ starts.
          let less = array_lt (skip_space s) starts in
          then_leaves (length inside) (length s) (parse_items f inside) _
            (items_leave f inside (omega (arith, skipped, less)))
            (λ vs rest le. omega (arith, skipped, left, le)))
        (λ starts.
          let less = object_lt (skip_space s) starts in
          then_leaves (length inside) (length s) (parse_members f inside) _
            (members_leave f inside (omega (arith, skipped, less)))
            (λ fs rest le. omega (arith, skipped, left, le)))
        (then_leaves (length (skip_space s)) (length s) (read_number (skip_space s)) _
          (number_leaves (skip_space s)) (λ l rest le. omega (arith, skipped, le)))
        (literal_leaves (b't' ∷ b'r' ∷ b'u' ∷ b'e' ∷ []) (bool true) s)
        (literal_leaves (b'f' ∷ b'a' ∷ b'l' ∷ b's' ∷ b'e' ∷ []) (bool false) s)
        (literal_leaves (b'n' ∷ b'u' ∷ b'l' ∷ b'l' ∷ []) null s)

  items_leave :
      (f : ℕ) (s : List ℕ) → 3 * length s + 2 < f → LeavesAtMost (length s) (parse_items f s)
  items_leave zero s h = absurd (omega arith)
  items_leave (suc f) s h =
      next_leaves (length s) (is_next b']' (skip_space s)) _ _
        (λ closes. omega (arith, le-length-skip_space s, le-length-rest_of (skip_space s)))
        (more_items_leave f s (omega arith))

  more_items_leave :
      (f : ℕ) (s : List ℕ) → 3 * length s + 1 < f → LeavesAtMost (length s) (parse_more_items f s)
  more_items_leave zero s h = absurd (omega arith)
  more_items_leave (suc f) s h =
      then_leaves (length s) (length s) (parse_value f s) _ (value_leaves f s (omega arith))
        (λ v s₁ le.
          let skipped = le-length-skip_space s₁ in
          let inside = rest_of (skip_space s₁) in
          next_leaves (length s) (is_next b',' (skip_space s₁)) _ _
            (λ goes_on.
              let less = lt-length-rest_of b',' (skip_space s₁) goes_on in
              then_leaves (length inside) (length s) (parse_more_items f inside) _
                (more_items_leave f inside (omega (arith, le, skipped, less)))
                (λ vs rest le'. omega (arith, le, skipped, less, le')))
            (then_leaves (length s₁) (length s) (expect b']' s₁) _ (expect_leaves b']' s₁)
              (λ u rest le'. omega (arith, le, le'))))

  members_leave :
      (f : ℕ) (s : List ℕ) → 3 * length s + 2 < f → LeavesAtMost (length s) (parse_members f s)
  members_leave zero s h = absurd (omega arith)
  members_leave (suc f) s h =
      next_leaves (length s) (is_next b'}' (skip_space s)) _ _
        (λ closes. omega (arith, le-length-skip_space s, le-length-rest_of (skip_space s)))
        (more_members_leave f s (omega arith))

  more_members_leave :
      (f : ℕ) (s : List ℕ) → 3 * length s + 1 < f → LeavesAtMost (length s) (parse_more_members f s)
  more_members_leave zero s h = absurd (omega arith)
  more_members_leave (suc f) s h =
      then_leaves (length s) (length s) (read_key s) _ (key_leaves s) (λ k s₁ le₁.
        then_leaves (length s₁) (length s) (expect b':' s₁) _ (expect_leaves b':' s₁) (λ u s₂ le₂.
          then_leaves (length s₂) (length s) (parse_value f s₂) _
            (value_leaves f s₂ (omega (arith, le₁, le₂)))
            (λ v s₃ le₃.
              let skipped = le-length-skip_space s₃ in
              let inside = rest_of (skip_space s₃) in
              next_leaves (length s) (is_next b',' (skip_space s₃)) _ _
                (λ goes_on.
                  let less = lt-length-rest_of b',' (skip_space s₃) goes_on in
                  then_leaves (length inside) (length s) (parse_more_members f inside) _
                    (more_members_leave f inside (omega (arith, le₁, le₂, le₃, skipped, less)))
                    (λ fs rest le. omega (arith, le₁, le₂, le₃, skipped, less, le)))
                (then_leaves (length s₃) (length s) (expect b'}' s₃) _ (expect_leaves b'}' s₃)
                  (λ w rest le. omega (arith, le₁, le₂, le₃, le))))))

spent_leaves {ℓ} : {A : Type ℓ} (n : ℕ) (p : Parsed (A × List ℕ)) → LeavesAtMost n p → p ≢ spent
spent_leaves n (done (a, rest)) h e = absurd (ground (arith, e))
spent_leaves n bad h e = absurd (ground (arith, e))
spent_leaves n spent h e = h

-- The parser never comes to the end of its fuel.
pub parse_value-ne-spent : (s : List ℕ) → parse_value (fuel_for s) s ≢ spent
parse_value-ne-spent s =
    spent_leaves (length s) (parse_value (fuel_for s) s) (value_leaves (fuel_for s) s (omega arith))
