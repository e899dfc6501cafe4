-- ===== src/Verify/Refusals/Codes.antt =====
-- facilitator/verify.go: the code that each step gives when it does not pass.
use cosmos_pay.Prelude.{
  ℕ, ◌≤◌, ◌<◌, String, ◌≡◌, ◌⊎◌, inl, inr, true, false, arith, List, Bool-cases,
}
use cosmos_pay.Clock.{Time, unix, is_zero, after}
use cosmos_pay.Errors.{Error, ok, err, error_code, is_chain_error, Result-cases}
use cosmos_pay.Types.{PaymentRequirements, PaymentPayload, Authorization}
use cosmos_pay.Types.Codes.{
  err_invalid_authorization, err_expired_authorization, err_insufficient_grant,
  err_insufficient_funds, err_unexpected,
}
use cosmos_pay.Amounts.{amount_below}
use cosmos_pay.Chain.{ChainClient, no_grant_text}
use cosmos_pay.Verify.{check_network, check_terms, check_window, check_grant, check_funds}

pub network_code :
    (chains : List (String × ChainClient)) (pp : PaymentPayload) (pr : PaymentRequirements)
    (e : Error)
    → check_network chains pp pr ≡ err e
    → error_code e ≡ err_invalid_authorization
unfolding check_network error_code
network_code chains pp pr e h = ground arith

pub terms_code :
    (client : ChainClient) (network : String) (a : Authorization) (pr : PaymentRequirements)
    (e : Error)
    → check_terms client network a pr ≡ err e
    → error_code e ≡ err_invalid_authorization
unfolding check_terms error_code
terms_code client network a pr e h = ground arith

-- before the window, or at its end or after it
abbrev pub IsOutside : Time → Authorization → Type 0
IsOutside t a = (unix t < a.valid_after) ⊎ (a.valid_before ≤ unix t)

pub window_code :
    (t : Time) (a : Authorization) (pr : PaymentRequirements) (e : Error)
    → check_window t a pr ≡ err e
    → (IsOutside t a × (error_code e ≡ err_expired_authorization))
      ⊎ ((¬ IsOutside t a) × (error_code e ≡ err_invalid_authorization))
unfolding check_window error_code
window_code t a pr e h = ground arith

-- the chain knows of no grant, or of one that is too small or has expired
pub data IsShort (client : ChainClient) (clock : ℕ → Time) (a : Authorization)
    (pr : PaymentRequirements) : Type 0 where
  no_grant :
      (e : Error)
      → client.query_send_authorization a.from pr.extra.facilitator a.denom ≡ err e
      → is_chain_error no_grant_text e ≡ true
      → IsShort client clock a pr
  too_small :
      (limit : String) (exp : Time)
      → client.query_send_authorization a.from pr.extra.facilitator a.denom ≡ ok (limit, exp)
      → amount_below limit a.amount ≡ true
      → IsShort client clock a pr
  ended :
      (limit : String) (exp : Time)
      → client.query_send_authorization a.from pr.extra.facilitator a.denom ≡ ok (limit, exp)
      → is_zero exp ≡ false
      → after exp (clock 1) ≡ false
      → IsShort client clock a pr

pub grant_code :
    (client : ChainClient) (clock : ℕ → Time) (a : Authorization) (pr : PaymentRequirements)
    (e : Error)
    → check_grant client clock a pr ≡ err e
    → (IsShort client clock a pr × (error_code e ≡ err_insufficient_grant))
      ⊎ ((f : Error) × (client.query_send_authorization a.from pr.extra.facilitator a.denom ≡ err f)
          × (is_chain_error no_grant_text f ≡ false)
          × (error_code e ≡ err_unexpected))
unfolding check_grant error_code
grant_code client clock a pr e h =
    elim (Result-cases (client.query_send_authorization a.from pr.extra.facilitator a.denom)) [
      | inl (f, failed) ↦ elim (Bool-cases (is_chain_error no_grant_text f)) [
        | inl h' ↦ inl (no_grant f failed h', ground arith)
        | inr h' ↦ inr (f, failed, h', ground arith)
      ]
      | inr (found, answered) ↦ elim (Bool-cases (amount_below found.0 a.amount)) [
        | inl h' ↦ inl (too_small found.0 found.1 answered h', ground arith)
        | inr h' ↦ inl (ended found.0 found.1 answered (ground arith) (ground arith), ground arith)
      ]
    ]

pub funds_code :
    (client : ChainClient) (a : Authorization) (e : Error)
    → check_funds client a ≡ err e
    → error_code e ≡ err_insufficient_funds
unfolding check_funds error_code
funds_code client a e h = ground arith
