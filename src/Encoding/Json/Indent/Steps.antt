-- ===== src/Encoding/Json/Indent/Steps.antt =====
-- One step of the parser with white space between the parts.
use cosmos_pay.Prelude.{ℕ, suc, ◌≡◌, refl, ap, ◌∙◌, String, true, false, List, ◌∷◌, ◌++◌}
use cosmos_pay.Encoding.Json.Value.{
  ◌>>=◌, Value, Values, Fields, done, no_values, value, no_fields, field, skip_space,
}
use cosmos_pay.Encoding.Json.Text.{read_text}
use cosmos_pay.Encoding.Json.Parse.{
  is_next, rest_of, expect_first, parse_value, parse_more_items, parse_more_members,
}
use cosmos_pay.Encoding.Json.Parse.Steps.{parse_array, parse_object}
use cosmos_pay.Encoding.Json.Indent.{line}
use cosmos_pay.Encoding.Json.Indent.Shape.{
  skip_space-line, parse_value_spaced, parse_more_items_spaced, parse_more_members_spaced,
}

pub last_item_spaced :
    (f : ℕ) (s t rest : List ℕ) (v : Value)
    → parse_value f s ≡ done (v, t)
    → skip_space t ≡ b']' ∷ rest
    → parse_more_items (suc f) s ≡ done (value v no_values, rest)
unfolding parse_value
last_item_spaced f s t rest v e h = rw e (
    ap
      (λ u. elim (is_next b',' u) [
        | true ↦ do (vs, s₂) ← parse_more_items f (rest_of u); done (value v vs, s₂)
        | false ↦ do (_, s₂) ← expect_first b']' u; done (value v no_values, s₂)
      ])
      h)

pub next_item_spaced :
    (f : ℕ) (s t u rest : List ℕ) (v : Value) (vs : Values)
    → parse_value f s ≡ done (v, b',' ∷ t)
    → skip_space t ≡ skip_space u
    → parse_more_items f u ≡ done (vs, rest)
    → parse_more_items (suc f) s ≡ done (value v vs, rest)
unfolding parse_value skip_space
next_item_spaced f s t u rest v vs e h e' = rw (e, parse_more_items_spaced f t u h, e') refl

pub last_member_spaced :
    (f : ℕ) (s t u rest : List ℕ) (k : String) (v : Value)
    → read_text s ≡ done (k, b':' ∷ b' ' ∷ t)
    → parse_value f t ≡ done (v, u)
    → skip_space u ≡ b'}' ∷ rest
    → parse_more_members (suc f) (b'"' ∷ s) ≡ done (field k v no_fields, rest)
unfolding parse_value skip_space
last_member_spaced f s t u rest k v e e' h =
    rw (e, parse_value_spaced f (b' ' ∷ t) t refl, e')
      (ap
        (λ x. elim (is_next b',' x) [
          | true ↦ do (fs, s₄) ← parse_more_members f (rest_of x); done (field k v fs, s₄)
          | false ↦ do (_, s₄) ← expect_first b'}' x; done (field k v no_fields, s₄)
        ])
        h)

pub next_member_spaced :
    (f : ℕ) (s t u w rest : List ℕ) (k : String) (v : Value) (fs : Fields)
    → read_text s ≡ done (k, b':' ∷ b' ' ∷ t)
    → parse_value f t ≡ done (v, b',' ∷ u)
    → skip_space u ≡ skip_space w
    → parse_more_members f w ≡ done (fs, rest)
    → parse_more_members (suc f) (b'"' ∷ s) ≡ done (field k v fs, rest)
unfolding parse_value skip_space
next_member_spaced f s t u w rest k v fs e e' h e'' =
    rw (e, parse_value_spaced f (b' ' ∷ t) t refl, e', parse_more_members_spaced f u w h, e'') refl

-- Behind an opening bracket, white space makes no difference.
pub array_spaced :
    (d f : ℕ) (s rest : List ℕ) (vs : Values)
    → is_next b']' (skip_space s) ≡ false
    → parse_more_items f s ≡ done (vs, rest)
    → parse_value (suc (suc f)) (b'[' ∷ (line d ++ s)) ≡ done (Value.array vs, rest)
array_spaced d f s rest vs h e =
    parse_array f (line d ++ s) rest vs (ap (is_next b']') (skip_space-line d s) ∙ h)
      (parse_more_items_spaced f (line d ++ s) s (skip_space-line d s) ∙ e)

pub object_spaced :
    (d f : ℕ) (s rest : List ℕ) (fs : Fields)
    → is_next b'}' (skip_space s) ≡ false
    → parse_more_members f s ≡ done (fs, rest)
    → parse_value (suc (suc f)) (b'{' ∷ (line d ++ s)) ≡ done (Value.object fs, rest)
object_spaced d f s rest fs h e =
    parse_object f (line d ++ s) rest fs (ap (is_next b'}') (skip_space-line d s) ∙ h)
      (parse_more_members_spaced f (line d ++ s) s (skip_space-line d s) ∙ e)
