-- ===== src/Verify.antt =====
-- facilitator/verify.go: the verification of a payment. `Verify` is one function in the source; its
-- numbered steps are one helper each here, in the order of the code, the returns as results.
-- The nonce store is a parameter, read by `Exists` only. `clock i` is what the i-th reading of the
-- verifier's clock in this call returns: two readings may differ.
pub mod Laws
pub mod Fields
pub mod Nonces
pub mod Grants
pub mod Refusals
use Prim.Native.String.{◌++◌}
use cosmos_pay.Prelude.{
  ℕ, ◌-◌, String, Bool, true, false, not, ◌==◌, ◌&&◌, ◌||◌, Option, none, some, List, ltb, leb,
}
use cosmos_pay.Prelude.Text.{trim_prefix}
use cosmos_pay.Clock.{Time, unix, is_zero, after}
use cosmos_pay.Errors.{
  Error, verify_error, error_text, is_chain_error, Result, ok, err, ◌>>=◌, ◌>>◌, reject_if,
  map_error,
}
use cosmos_pay.Types.{PaymentRequirements, Authorization, PaymentPayload, VerifyRequest}
use cosmos_pay.Types.Codes.{
  scheme_id, err_invalid_signature, err_invalid_authorization, err_nonce_already_used,
  err_expired_authorization, err_insufficient_grant, err_insufficient_funds, err_unexpected,
}
use cosmos_pay.Amounts.{amount_exceeds, amount_below}
use cosmos_pay.Nonces.{NonceStore}
use cosmos_pay.Nonces.Table.{lookup}
use cosmos_pay.Chain.{ChainClient, no_grant_text}
use cosmos_pay.Adr036.{SignLib, verify_adr036}

pub record Verifier : Type 0 where
  pub chains : List (String × ChainClient)
  pub clock : ℕ → Time

-- NewVerifier(chains, store); `now` stands for time.Now
abbrev pub new_verifier : List (String × ChainClient) → (ℕ → Time) → Verifier
new_verifier chains now = record { chains = chains; clock = now }

abbrev invalid : String → Error
invalid message = verify_error err_invalid_authorization message

abbrev or_unsupported : String → Option ChainClient → Result ChainClient
or_unsupported network none = err (invalid ("unsupported network: " ++ network))
or_unsupported network (some client) = ok client

-- step 1: scheme and network
unfoldable pub check_network :
    List (String × ChainClient) → PaymentPayload → PaymentRequirements → Result ChainClient
unfolding lookup
check_network chains pp pr = do
  reject_if (not (pp.scheme == scheme_id) || not (pr.scheme == scheme_id))
      (invalid "scheme mismatch")
  reject_if (not (pp.network == pr.network)) (invalid "network mismatch")
  or_unsupported pp.network (lookup pp.network chains)

-- steps 2 to 6: the authorization against the requirements
unfoldable pub check_terms :
    ChainClient → String → Authorization → PaymentRequirements → Result (Unit {0})
check_terms client network a pr = do
  reject_if (not (a.to == pr.pay_to)) (invalid "to/payTo mismatch")
  reject_if (not (a.denom == pr.asset)) (invalid "denom/asset mismatch")
  reject_if (amount_exceeds a.amount pr.max_amount_required)
      (invalid "amount exceeds maxAmountRequired")
  reject_if (not (a.resource == pr.resource)) (invalid "resource mismatch")
  let expected = trim_prefix network "cosmos:"
  reject_if (not (a.chain_id == expected) || not (a.chain_id == client.chain_id))
      (invalid "chainId mismatch")
  ok tt

-- step 7: the validity window; the differences of `uint64` are taken only where they do not wrap
unfoldable pub check_window : Time → Authorization → PaymentRequirements → Result (Unit {0})
check_window t a pr = do
  let now = unix t
  reject_if (ltb now a.valid_after) (verify_error err_expired_authorization "not yet valid")
  reject_if (leb a.valid_before now) (verify_error err_expired_authorization "expired")
  reject_if (leb a.valid_before a.valid_after) (invalid "non-positive validity window")
  reject_if
      (ltb 0 pr.max_timeout_seconds && ltb pr.max_timeout_seconds (a.valid_before - a.valid_after))
      (invalid "validity window exceeds maxTimeoutSeconds")
  ok tt

-- the error of a failed grant query
abbrev grant_error : Error → Error
grant_error e = elim (is_chain_error no_grant_text e) [
  | true ↦ verify_error err_insufficient_grant "no SendAuthorization for facilitator"
  | false ↦ verify_error err_unexpected ("grant query: " ++ error_text e)
]

-- step 11: the grant exists, covers the amount, and has not expired
unfoldable pub check_grant :
    ChainClient → (ℕ → Time) → Authorization → PaymentRequirements → Result (Unit {0})
check_grant client clock a pr = do
  (limit, exp) ←
      map_error grant_error (client.query_send_authorization a.from pr.extra.facilitator a.denom)
  reject_if (amount_below limit a.amount)
      (verify_error err_insufficient_grant ("grant limit " ++ limit ++ " < amount " ++ a.amount))
  reject_if (not (is_zero exp) && not (after exp (clock 1)))
      (verify_error err_insufficient_grant "grant expired")
  ok tt

-- the balance check, skipped where the query fails
abbrev short_of_funds : Result String → Authorization → Result (Unit {0})
short_of_funds (err e) a = ok tt
short_of_funds (ok bal) a =
    reject_if (amount_below bal a.amount)
      (verify_error err_insufficient_funds ("balance " ++ bal ++ " < amount " ++ a.amount))

unfoldable pub check_funds : ChainClient → Authorization → Result (Unit {0})
check_funds client a = short_of_funds (client.query_balance a.from a.denom) a

module _ (lib : SignLib) (N : NonceStore) where
  -- step 8: the nonce has not been seen
  unfoldable pub check_nonce : Authorization → N.State → Result (Unit {0})
  check_nonce a s = do
    used ←
        map_error (λ e. verify_error err_unexpected ("nonce store error: " ++ error_text e))
          (N.exists a.from a.chain_id a.nonce s)
    reject_if used (verify_error err_nonce_already_used "nonce already observed")
    ok tt

  -- (*Verifier).Verify
  unfoldable pub verify : Verifier → VerifyRequest → N.State → Result String
  verify v req s = do
    let pp = req.payment_payload
    let pr = req.payment_requirements
    let a = pp.payload.authorization
    client ← check_network v.chains pp pr
    check_terms client pp.network a pr
    check_window (v.clock 0) a pr
    check_nonce a s
    addr ←
        map_error (λ e. verify_error err_invalid_signature (error_text e))
          (verify_adr036 lib pp.payload.public_key pp.payload.signature a client.account_prefix)
    check_grant client v.clock a pr
    check_funds client a
    ok addr
