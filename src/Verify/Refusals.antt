-- ===== src/Verify/Refusals.antt =====
-- facilitator/verify.go: the error codes, by the first step that does not pass.
pub mod Codes
pub mod Sound
pub mod Laws
use cosmos_pay.Prelude.{
  ℕ, ◌≤◌, ◌<◌, String, ◌≡◌, ◌≢◌, ◌↔◌, ◌⊎◌, inl, inr, refl, Bool, true, false, ◌==◌, eq_iff, Option,
  none, some, arith, if◌then◌else◌, List, ltb, leb, ◌||◌, Bool-cases,
}
use cosmos_pay.Clock.{Time, unix, is_zero, after}
use cosmos_pay.Errors.{
  Error, verify_error, Result, ok, err, ◌>>◌, error_code, is_chain_error, Result-cases, value_or,
}
use cosmos_pay.Types.{PaymentRequirements, PaymentPayload, VerifyRequest, Authorization}
use cosmos_pay.Types.Codes.{
  err_invalid_signature, err_invalid_authorization, err_nonce_already_used,
  err_expired_authorization, err_insufficient_grant, err_insufficient_funds, err_unexpected,
}
use cosmos_pay.Amounts.{amount_below}
use cosmos_pay.Nonces.{NonceStore}
use cosmos_pay.Chain.{ChainClient, no_grant_text}
use cosmos_pay.Adr036.{SignLib, verify_adr036}
use cosmos_pay.Adr036.Laws.{IsSigned, verify_adr036_sound, verify_adr036_complete}
use cosmos_pay.Verify.{
  Verifier, check_network, check_terms, check_window, check_nonce, check_grant, check_funds, verify,
}
use cosmos_pay.Verify.Nonces.{code_of}
use cosmos_pay.Verify.Laws.{
  OnNetwork, MeetsTerms, InWindow, IsGranted, IsFunded, check_network_iff, check_terms_iff,
  check_window_iff, check_nonce_iff, check_grant_iff, check_funds_iff,
}
use cosmos_pay.Verify.Refusals.Codes.{IsOutside, IsShort}

module _ (lib : SignLib) (N : NonceStore) (v : Verifier) (req : VerifyRequest) (s : N.State) where
  abbrev pub a : Authorization
  a = req.payment_payload.payload.authorization

  abbrev pub pr : PaymentRequirements
  pr = req.payment_requirements

  -- the steps that have passed
  abbrev pub AtTerms : ChainClient → Type 0
  AtTerms client = OnNetwork v.chains req.payment_payload pr client

  abbrev pub AtWindow : ChainClient → Type 0
  AtWindow client = AtTerms client × MeetsTerms client req.payment_payload.network a pr

  abbrev pub AtNonce : ChainClient → Type 0
  AtNonce client = AtWindow client × InWindow (v.clock 0) a pr

  abbrev pub AtSignature : ChainClient → Type 0
  AtSignature client = AtNonce client × (N.exists a.from a.chain_id a.nonce s ≡ ok false)

  abbrev pub HasSignature : ChainClient → Type 0
  HasSignature client =
      IsSigned lib req.payment_payload.payload.public_key req.payment_payload.payload.signature a
        client.account_prefix

  abbrev pub AtGrant : ChainClient → Type 0
  AtGrant client = AtSignature client × HasSignature client

  -- The first step that does not pass, and the code that the source gives for it.
  pub data Refused (code : String) : Type 0 where
    bad_network :
        ((client : ChainClient) → ¬ AtTerms client)
        → code ≡ err_invalid_authorization
        → Refused code
    bad_terms :
        (client : ChainClient)
        → AtTerms client
        → ¬ MeetsTerms client req.payment_payload.network a pr
        → code ≡ err_invalid_authorization
        → Refused code
    outside_window :
        (client : ChainClient)
        → AtWindow client
        → IsOutside (v.clock 0) a
        → code ≡ err_expired_authorization
        → Refused code
    bad_window :
        (client : ChainClient)
        → AtWindow client
        → ¬ IsOutside (v.clock 0) a
        → ¬ InWindow (v.clock 0) a pr
        → code ≡ err_invalid_authorization
        → Refused code
    nonce_seen :
        (client : ChainClient)
        → AtNonce client
        → N.exists a.from a.chain_id a.nonce s ≡ ok true
        → code ≡ err_nonce_already_used
        → Refused code
    store_failed :
        (client : ChainClient) (e : Error)
        → AtNonce client
        → N.exists a.from a.chain_id a.nonce s ≡ err e
        → code ≡ err_unexpected
        → Refused code
    not_signed :
        (client : ChainClient)
        → AtSignature client
        → ¬ HasSignature client
        → code ≡ err_invalid_signature
        → Refused code
    not_granted :
        (client : ChainClient)
        → AtGrant client
        → IsShort client v.clock a pr
        → code ≡ err_insufficient_grant
        → Refused code
    grant_unknown :
        (client : ChainClient) (e : Error)
        → AtGrant client
        → client.query_send_authorization a.from pr.extra.facilitator a.denom ≡ err e
        → is_chain_error no_grant_text e ≡ false
        → code ≡ err_unexpected
        → Refused code
    not_funded :
        (client : ChainClient)
        → AtGrant client
        → IsGranted client v.clock a pr
        → ¬ IsFunded client a
        → code ≡ err_insufficient_funds
        → Refused code
