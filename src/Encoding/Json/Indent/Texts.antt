-- ===== src/Encoding/Json/Indent/Texts.antt =====
-- The parts of indented JSON in front of a rest, and their sizes.
use mathlib.Core.List.{append_assoc}
use cosmos_pay.Prelude.{
  ℕ, suc, ◌+◌, ◌≤◌, ◌≡◌, refl, ◌∙◌, String, false, List, ◌∷◌, ◌++◌, arith, length, length-append,
}
use cosmos_pay.Prelude.Text.{codes}
use cosmos_pay.Encoding.Json.{Json, Items, Members, arr, obj, nil, cons, end, member, escape_all}
use cosmos_pay.Encoding.Json.Value.{done, is_space, skip_space}
use cosmos_pay.Encoding.Json.Parse.{is_next, start_of, parse_value}
use cosmos_pay.Encoding.Json.Parse.Laws.{value_of}
use cosmos_pay.Encoding.Json.Indent.{line, print_at, print_more, print_others}
use cosmos_pay.Encoding.Json.Indent.Shape.{skip_space-line}

pub empty_array :
    (d f : ℕ) (rest : List ℕ)
    → parse_value (suc (suc f)) (print_at d (arr nil) ++ rest) ≡ done (value_of (arr nil), rest)
unfolding parse_value print_at value_of skip_space start_of
empty_array d f rest = refl

pub empty_object :
    (d f : ℕ) (rest : List ℕ)
    → parse_value (suc (suc f)) (print_at d (obj end) ++ rest) ≡ done (value_of (obj end), rest)
unfolding parse_value print_at value_of skip_space start_of
empty_object d f rest = refl

pub quote_opens : (s : List ℕ) → is_next b'}' (skip_space (b'"' ∷ s)) ≡ false
unfolding skip_space
quote_opens s = refl

pub no_more : (d : ℕ) (s : List ℕ) → print_more d nil ++ s ≡ s
unfolding print_at
no_more d s = refl

pub no_others : (d : ℕ) (s : List ℕ) → print_others d end ++ s ≡ s
unfolding print_at
no_others d s = refl

pub array_text :
    (d : ℕ) (x : Json) (xs : Items) (s : List ℕ)
    → print_at d (arr (cons x xs)) ++ s
      ≡ b'['
        ∷ (line (suc d) ++ (print_at (suc d) x ++ (print_more (suc d) xs ++ (line d ++ b']' ∷ s))))
unfolding print_at
array_text d x xs s = simp append_assoc

pub object_text :
    (d : ℕ) (k : String) (v : Json) (ms : Members) (s : List ℕ)
    → print_at d (obj (member k v ms)) ++ s
      ≡ b'{'
        ∷ (line (suc d)
            ++ b'"'
              ∷ (escape_all (codes k)
                  ++ b'"'
                    ∷ b':'
                    ∷ b' '
                    ∷ (print_at (suc d) v ++ (print_others (suc d) ms ++ (line d ++ b'}' ∷ s)))))
unfolding print_at
object_text d k v ms s = simp append_assoc

pub more_text :
    (d e : ℕ) (y : Json) (ys : Items) (s : List ℕ)
    → print_more d (cons y ys) ++ (line e ++ b']' ∷ s)
      ≡ b',' ∷ (line d ++ (print_at d y ++ (print_more d ys ++ (line e ++ b']' ∷ s))))
unfolding print_at
more_text d e y ys s = simp append_assoc

pub others_text :
    (d e : ℕ) (j : String) (w : Json) (ms : Members) (s : List ℕ)
    → print_others d (member j w ms) ++ (line e ++ b'}' ∷ s)
      ≡ b','
        ∷ (line d
            ++ b'"'
              ∷ (escape_all (codes j)
                  ++ b'"'
                    ∷ b':'
                    ∷ b' '
                    ∷ (print_at d w ++ (print_others d ms ++ (line e ++ b'}' ∷ s)))))
unfolding print_at
others_text d e j w ms s = simp append_assoc

pub array_size :
    (d : ℕ) (x : Json) (xs : Items)
    → length (print_at (suc d) x) + length (print_more (suc d) xs) + 2
      ≤ length (print_at d (arr (cons x xs)))
unfolding print_at
array_size d x xs = grind (arith, length-append {A = ℕ})

pub object_size :
    (d : ℕ) (k : String) (v : Json) (ms : Members)
    → length (print_at (suc d) v) + length (print_others (suc d) ms) + 2
      ≤ length (print_at d (obj (member k v ms)))
unfolding print_at
object_size d k v ms = grind (arith, length-append {A = ℕ})

pub more_size :
    (d : ℕ) (y : Json) (ys : Items)
    → length (print_at d y) + length (print_more d ys) + 1 ≤ length (print_more d (cons y ys))
unfolding print_at
more_size d y ys = grind (arith, length-append {A = ℕ})

pub others_size :
    (d : ℕ) (j : String) (w : Json) (ms : Members)
    → length (print_at d w) + length (print_others d ms) + 1
      ≤ length (print_others d (member j w ms))
unfolding print_at
others_size d j w ms = grind (arith, length-append {A = ℕ})

pub closes :
    (c e : ℕ) (rest : List ℕ) → is_space c ≡ false → skip_space (line e ++ c ∷ rest) ≡ c ∷ rest
unfolding skip_space
closes c e rest h = skip_space-line e (c ∷ rest) ∙ rw h refl
