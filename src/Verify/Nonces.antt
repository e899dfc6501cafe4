-- ===== src/Verify/Nonces.antt =====
-- facilitator/verify.go: refusals for a used nonce, and outside the validity window.
use cosmos_pay.Prelude.{◌≤◌, ◌<◌, String, ◌≡◌, ◌⊎◌, true, Option, none, some, arith}
use cosmos_pay.Clock.{unix}
use cosmos_pay.Errors.{Result, ok, err, error_code}
use cosmos_pay.Types.{VerifyRequest, Authorization}
use cosmos_pay.Types.Codes.{err_nonce_already_used, err_expired_authorization}
use cosmos_pay.Nonces.{NonceStore}
use cosmos_pay.Chain.{ChainClient}
use cosmos_pay.Adr036.{SignLib}
use cosmos_pay.Verify.{Verifier, check_window, check_nonce, verify}
use cosmos_pay.Verify.Laws.{
  OnNetwork, MeetsTerms, InWindow, check_network_iff, check_terms_iff, check_window_iff,
}

-- the code of a refusal
abbrev pub code_of : Result String → Option String
code_of (ok payer) = none
code_of (err e) = some (error_code e)

module _ (lib : SignLib) (N : NonceStore) (v : Verifier) (req : VerifyRequest) (s : N.State) where
  abbrev authorization : Authorization
  authorization = req.payment_payload.payload.authorization

  -- The steps before the nonce have passed, and the store has seen it.
  pub record IsReplay : Type 0 where
    pub client : ChainClient
    pub network : OnNetwork v.chains req.payment_payload req.payment_requirements client
    pub terms : MeetsTerms client req.payment_payload.network authorization req.payment_requirements
    pub window : InWindow (v.clock 0) authorization req.payment_requirements
    pub used : N.exists authorization.from authorization.chain_id authorization.nonce s ≡ ok true

  -- The steps before the window have passed, and the clock is outside it.
  pub record IsExpired : Type 0 where
    pub client : ChainClient
    pub network : OnNetwork v.chains req.payment_payload req.payment_requirements client
    pub terms : MeetsTerms client req.payment_payload.network authorization req.payment_requirements
    pub outside :
        (unix (v.clock 0) < authorization.valid_after)
        ⊎ (authorization.valid_before ≤ unix (v.clock 0))

  -- A payment that passes the steps before the nonce, and whose triple the store has seen, is
  -- refused with the code `nonce_already_used`, whatever its signature and the chain say.
  pub replay_refused : IsReplay → code_of (verify lib N v req s) ≡ some err_nonce_already_used
  unfolding verify check_nonce error_code
  replay_refused r = ground (
    arith,
    (check_network_iff v.chains req.payment_payload req.payment_requirements r.client).1 r.network,
    (check_terms_iff r.client req.payment_payload.network authorization req.payment_requirements).1
        r.terms,
    (check_window_iff (v.clock 0) authorization req.payment_requirements).1 r.window,
  )

  -- A payment that passes the steps before the window is refused with the code
  -- `expired_authorization` if the clock is before its `validAfter`, or at or after its
  -- `validBefore`.
  pub expired_refused : IsExpired → code_of (verify lib N v req s) ≡ some err_expired_authorization
  unfolding verify check_window error_code
  expired_refused r = ground (
    arith,
    (check_network_iff v.chains req.payment_payload req.payment_requirements r.client).1 r.network,
    (check_terms_iff r.client req.payment_payload.network authorization req.payment_requirements).1
        r.terms,
  )
