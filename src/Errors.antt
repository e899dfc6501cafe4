-- ===== src/Errors.antt =====
-- Go's `error` values, and results of calls that may fail. `fmt.Errorf` with `%w` wraps an error
-- under a text; `errors.Is` and `errors.As` look through the wrappings.
use cosmos_pay.Prelude.{◌⊎◌, inl, inr, String, ◌≡◌, refl, Bool, true, false, ◌==◌}
use Prim.Native.String.{◌++◌}
use cosmos_pay.Types.Codes.{err_unexpected}

pub data Error : Type 0 where
  -- errors.New, and the errors of libraries
  plain : String → Error
  -- fmt.Errorf("… %w …", err): the whole text, and the error underneath
  wrapped : String → Error → Error
  -- chainError (facilitator/chain.go)
  chain_error : String → Error
  -- ErrNonceUsed (facilitator/store.go), compared by identity
  nonce_used : Error
  -- verifyError (facilitator/verify.go): code and message
  verify_error : String → String → Error

pub data Result {ℓ} (A : Type ℓ) : Type ℓ where
  ok : A → Result A
  err : Error → Result A

-- err.Error()
unfoldable pub error_text : Error → String
error_text (plain s) = s
error_text (wrapped s e) = s
error_text (chain_error s) = s
error_text nonce_used = "nonce already used"
error_text (verify_error code message) = code ++ ": " ++ message

-- fmt.Errorf("<what>: %w", err)
abbrev pub in_step : String → Error → Error
in_step what e = wrapped (what ++ ": " ++ error_text e) e

-- the text of log.Fatalf("<what>: %v", err)
abbrev pub fatal : String → Error → Error
fatal what e = plain (what ++ ": " ++ error_text e)

-- errors.Is(err, target) at a `chainError`
unfoldable pub is_chain_error : String → Error → Bool
is_chain_error target (chain_error s) = s == target
is_chain_error target (wrapped s e) = is_chain_error target e
is_chain_error target _ = false

-- err == ErrNonceUsed: identity, with no unwrapping
abbrev pub is_nonce_used : Error → Bool
is_nonce_used nonce_used = true
is_nonce_used _ = false

-- ErrorCode of facilitator/verify.go: errors.As finds the first `verifyError` in the chain
unfoldable pub error_code : Error → String
error_code (verify_error code message) = code
error_code (wrapped s e) = error_code e
error_code _ = err_unexpected

infixl 5 ◌>>=◌ ◌>>◌
-- if err != nil { return "", err }, and the code after it
abbrev pub ◌>>=◌ {ℓ κ} :
    {Found : Type ℓ} {Next : Type κ} → Result Found → (Found → Result Next) → Result Next
err failure >>= next = err failure
ok found >>= next = next found

abbrev pub ◌>>◌ {κ} : {Next : Type κ} → Result (Unit {0}) → Result Next → Result Next
check >> next = check >>= λ done. next

-- if bad { return "", e }
abbrev pub reject_if : Bool → Error → Result (Unit {0})
reject_if true e = err e
reject_if false e = ok tt

-- if err != nil { return "", f(err) }
abbrev pub map_error {ℓ} : {A : Type ℓ} → (Error → Error) → Result A → Result A
map_error f (ok a) = ok a
map_error f (err e) = err (f e)

-- the value of a successful result
abbrev pub value_or {ℓ} : {A : Type ℓ} → A → Result A → A
value_or d (ok a) = a
value_or d (err e) = d

pub Result-cases {ℓ} :
    {A : Type ℓ} (m : Result A) → ((e : Error) × (m ≡ err e)) ⊎ ((a : A) × (m ≡ ok a))
Result-cases (ok a) = inr (a, refl)
Result-cases (err e) = inl (e, refl)
