-- ===== src/Adr036/Binding.antt =====
-- facilitator/adr036.go: what the bytes that a payer signs say of the authorization.
use cosmos_pay.Prelude.{
  true, ◌^◌, ◌≤◌, ◌<◌, String, ◌≡◌, ◌↔◌, refl, sym, ◌∙◌, ap, [], ◌∷◌, All, arith,
}
use cosmos_pay.Errors.{ok, value_or}
use cosmos_pay.Types.{Authorization}
use cosmos_pay.Types.Tags.{authorization_json}
use cosmos_pay.Encoding.Base64
use cosmos_pay.Encoding.Base64.Laws.{decode-encode}
use cosmos_pay.Encoding.Json.{Json, str, num, obj, members, print}
use cosmos_pay.Encoding.Json.Bytes.{print-AreBytes}
use cosmos_pay.Adr036.Sorting.{SortsJson, sorted, insert_member, is_plain, has_key}
use cosmos_pay.Encoding.Json.Unique.{
  str_unique, num_unique, obj_unique, arr_unique, obj_whole, member_next, member_end, text_next,
  number_next, same_next,
}
use cosmos_pay.Adr036.{
  SignLib, Bytes, sign_doc, sign_doc_json, canonical_authorization_json, adr036_preimage,
}

-- Its numbers are integers that every JSON reader keeps, also one that reads them as float64.
pub record IsExact (a : Authorization) : Type 0 where
  pub after : a.valid_after ≤ 2 ^ 53
  pub before : a.valid_before ≤ 2 ^ 53

-- The JSON of an authorization with its keys in order.
abbrev pub sorted_authorization : Authorization → Json
sorted_authorization a = obj (
    members (
      ("amount", str a.amount)
      ∷ ("chainId", str a.chain_id)
      ∷ ("denom", str a.denom)
      ∷ ("from", str a.from)
      ∷ ("nonce", str a.nonce)
      ∷ ("resource", str a.resource)
      ∷ ("to", str a.to)
      ∷ ("validAfter", num a.valid_after)
      ∷ ("validBefore", num a.valid_before)
      ∷ []))

plain_authorization : (a : Authorization) → IsExact a → is_plain (authorization_json a) ≡ true
unfolding is_plain has_key
plain_authorization a exact = let h = exact.after in let k = exact.before in ground arith

sorted-authorization_json :
    (a : Authorization) → sorted (authorization_json a) ≡ sorted_authorization a
unfolding sorted insert_member
sorted-authorization_json a = refl

-- The sorted JSON of an authorization determines it.
authorization_unique :
    (a b : Authorization) → print (sorted_authorization a) ≡ print (sorted_authorization b) → a ≡ b
authorization_unique a b h =
    let h₀ = obj_whole _ _ h in
    let (amount, h₁) = text_next _ _ _ _ _ _ _ _ _ _ h₀ in
    let (chain_id, h₂) = text_next _ _ _ _ _ _ _ _ _ _ h₁ in
    let (denom, h₃) = text_next _ _ _ _ _ _ _ _ _ _ h₂ in
    let (from, h₄) = text_next _ _ _ _ _ _ _ _ _ _ h₃ in
    let (nonce, h₅) = text_next _ _ _ _ _ _ _ _ _ _ h₄ in
    let (resource, h₆) = text_next _ _ _ _ _ _ _ _ _ _ h₅ in
    let (to, h₇) = text_next _ _ _ _ _ _ _ _ _ _ h₆ in
    let (valid_after, h₈) = number_next _ _ _ _ _ _ _ _ _ _ h₇ in
    let (valid_before, _) = num_unique _ _ _ _ refl refl (member_end _ _ _ _ _ h₈) in ground arith

module _ (lib : SignLib) where
  -- The JSON of a sign document determines the data and the signer of its one message.
  document_unique :
      (a b : Authorization) (p q : String)
      → print (sign_doc_json (sign_doc lib a p)) ≡ print (sign_doc_json (sign_doc lib b q))
      → (p ≡ q) × (a.from ≡ b.from)
  document_unique a b p q h =
      let h₀ = obj_whole _ _ h in
      let h₁ = same_next _ _ _ _ _ _ _ _ _ h₀ in
      let h₂ = same_next _ _ _ _ _ _ _ _ _ h₁ in
      let h₃ = same_next _ _ _ _ _ _ _ _ _ h₂ in
      let h₄ = same_next _ _ _ _ _ _ _ _ _ h₃ in
      let message = obj_unique _ _ _ _ (arr_unique _ _ _ _ (member_next _ _ _ _ _ _ _ _ _ _ h₄)) in
      let value = same_next _ _ _ _ _ _ _ _ _ message in
      let fields = obj_unique _ _ _ _ (member_end _ _ _ _ _ value) in
      let (data_b64, rest) = text_next _ _ _ _ _ _ _ _ _ _ fields in
      let (signer, _) = str_unique _ _ _ _ (member_end _ _ _ _ _ rest) in (data_b64, signer)

  encode_injective :
      (x y : Bytes)
      → All (λ b. b < 256) x
      → All (λ b. b < 256) y
      → Base64.encode x ≡ Base64.encode y
      → x ≡ y
  encode_injective x y hx hy h =
      ground (arith, decode-encode x hx, decode-encode y hy, ap Base64.decode h)

  -- The keys of the program's sign documents are in order.
  sorted-sign_doc_json :
      (a : Authorization) (p : String)
      → (is_plain (sign_doc_json (sign_doc lib a p)) ≡ true)
        × (sorted (sign_doc_json (sign_doc lib a p)) ≡ sign_doc_json (sign_doc lib a p))
  unfolding sorted insert_member is_plain has_key
  sorted-sign_doc_json a p = (refl, refl)

  -- what sorting makes of the two texts
  sorted_texts :
      SortsJson lib
      → (a : Authorization) (m : Bytes) → IsExact a
      → adr036_preimage lib a ≡ ok m
      → m ≡ print (sign_doc_json (sign_doc lib a (Base64.encode (print (sorted_authorization a)))))
  unfolding adr036_preimage canonical_authorization_json
  sorted_texts sorts a m exact made =
      let x = value_or [] (lib.sort_json (print (authorization_json a))) in
      let text =
        sorts.sorts (authorization_json a) x (plain_authorization a exact) (ground arith)
        ∙ ap print (sorted-authorization_json a) in
      let (plain, kept) = sorted-sign_doc_json a (Base64.encode x) in
      let document =
        sorts.sorts (sign_doc_json (sign_doc lib a (Base64.encode x))) m plain (ground arith)
        ∙ ap print kept in
      rw text at document

  preimage_unique :
      SortsJson lib
      → (a b : Authorization) (m : Bytes) → IsExact a
      → IsExact b
      → adr036_preimage lib a ≡ ok m
      → adr036_preimage lib b ≡ ok m
      → a ≡ b
  preimage_unique sorts a b m ha hb made made' =
      let x = print (sorted_authorization a) in
      let y = print (sorted_authorization b) in
      let documents = sym (sorted_texts sorts a m ha made) ∙ sorted_texts sorts b m hb made' in
      authorization_unique a b (
        encode_injective x y (print-AreBytes (sorted_authorization a))
          (print-AreBytes (sorted_authorization b))
          (document_unique a b (Base64.encode x) (Base64.encode y) documents).0)

  -- Let `SortJSON`, where it succeeds on a JSON value without a repeated key or a number
  -- above 2 ^ 53, write the value with its keys in order. Then two authorizations that have
  -- sign bytes and whose times are at most 2 ^ 53 have the same sign bytes exactly if they
  -- are the same in every field.
  pub preimage_binds :
      SortsJson lib
      → (a b : Authorization) (m n : Bytes) → IsExact a
      → IsExact b
      → adr036_preimage lib a ≡ ok m
      → adr036_preimage lib b ≡ ok n
      → (m ≡ n) ↔ (a ≡ b)
  preimage_binds sorts a b m n ha hb made made' = (
    λ same. preimage_unique sorts a b m ha hb made (rw same made'),
    λ same. let again = rw same at made in ground (arith, again, made'),
  )
