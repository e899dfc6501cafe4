-- ===== src/Verify/Laws.antt =====
-- The steps of facilitator/verify.go one by one, as records of what each asks for, and the
-- whole.
use cosmos_pay.Prelude.{
  ℕ, ◌+◌, ◌≤◌, ◌<◌, String, ◌≡◌, ◌↔◌, ◌⊎◌, inl, inr, true, false, eq_iff, some, List, arith,
}
use cosmos_pay.Prelude.Text.{trim_prefix}
use cosmos_pay.Clock.{Time, zero_time, unix, is_zero, after}
use cosmos_pay.Errors.{ok, value_or, Result-cases}
use cosmos_pay.Types.{PaymentRequirements, Authorization, PaymentPayload, VerifyRequest}
use cosmos_pay.Types.Codes.{scheme_id}
use cosmos_pay.Amounts.{amount_exceeds, amount_below}
use cosmos_pay.Nonces.{NonceStore}
use cosmos_pay.Nonces.Table.{lookup}
use cosmos_pay.Chain.{ChainClient}
use cosmos_pay.Adr036.{SignLib, verify_adr036}
use cosmos_pay.Adr036.Laws.{IsSigned, verify_adr036_sound, verify_adr036_complete}
use cosmos_pay.Verify.{
  Verifier, check_network, check_terms, check_window, check_grant, check_funds, check_nonce, verify,
}

-- step 1
pub record OnNetwork (chains : List (String × ChainClient)) (pp : PaymentPayload)
    (pr : PaymentRequirements) (client : ChainClient) : Type 0 where
  pub payload_scheme : pp.scheme ≡ scheme_id
  pub requirements_scheme : pr.scheme ≡ scheme_id
  pub same_network : pp.network ≡ pr.network
  pub configured : lookup pp.network chains ≡ some client

pub check_network_iff :
    (chains : List (String × ChainClient)) (pp : PaymentPayload) (pr : PaymentRequirements)
    (client : ChainClient)
    → (check_network chains pp pr ≡ ok client) ↔ OnNetwork chains pp pr client
unfolding check_network
check_network_iff chains pp pr client =
    ground
      (arith, eq_iff pp.scheme scheme_id, eq_iff pr.scheme scheme_id, eq_iff pp.network pr.network)

-- steps 2 to 6
pub record MeetsTerms (client : ChainClient) (network : String) (a : Authorization)
    (pr : PaymentRequirements) : Type 0 where
  pub recipient : a.to ≡ pr.pay_to
  pub asset : a.denom ≡ pr.asset
  pub amount : amount_exceeds a.amount pr.max_amount_required ≡ false
  pub resource : a.resource ≡ pr.resource
  pub chain_of_network : a.chain_id ≡ trim_prefix network "cosmos:"
  pub chain_of_client : a.chain_id ≡ client.chain_id

pub check_terms_iff :
    (client : ChainClient) (network : String) (a : Authorization) (pr : PaymentRequirements)
    → (check_terms client network a pr ≡ ok tt) ↔ MeetsTerms client network a pr
unfolding check_terms
check_terms_iff client network a pr = ground (
  arith,
  eq_iff a.to pr.pay_to,
  eq_iff a.denom pr.asset,
  eq_iff a.resource pr.resource,
  eq_iff a.chain_id (trim_prefix network "cosmos:"),
  eq_iff a.chain_id client.chain_id,
)

-- step 7
pub record InWindow (t : Time) (a : Authorization) (pr : PaymentRequirements) : Type 0 where
  pub started : a.valid_after ≤ unix t
  pub not_ended : unix t < a.valid_before
  pub bounded :
      (pr.max_timeout_seconds ≡ 0) ⊎ (a.valid_before ≤ a.valid_after + pr.max_timeout_seconds)

pub check_window_iff :
    (t : Time) (a : Authorization) (pr : PaymentRequirements)
    → (check_window t a pr ≡ ok tt) ↔ InWindow t a pr
unfolding check_window
check_window_iff t a pr = ground arith

-- step 11
pub record IsGranted (client : ChainClient) (clock : ℕ → Time) (a : Authorization)
    (pr : PaymentRequirements) : Type 0 where
  pub limit : String
  pub expiration : Time
  pub answered :
      client.query_send_authorization a.from pr.extra.facilitator a.denom ≡ ok (limit, expiration)
  pub covers : amount_below limit a.amount ≡ false
  pub lasting : (is_zero expiration ≡ true) ⊎ (after expiration (clock 1) ≡ true)

pub check_grant_iff :
    (client : ChainClient) (clock : ℕ → Time) (a : Authorization) (pr : PaymentRequirements)
    → (check_grant client clock a pr ≡ ok tt) ↔ IsGranted client clock a pr
unfolding check_grant
check_grant_iff client clock a pr = (
  λ h.
      let answer =
        value_or ("", zero_time)
          (client.query_send_authorization a.from pr.extra.facilitator a.denom) in
      record {
        limit = answer.0;
        expiration = answer.1;
        answered = ground arith;
        covers = ground arith;
        lasting = ground arith;
      },
  λ g. ground arith,
)

-- the balance check
abbrev pub IsFunded : ChainClient → Authorization → Type 0
IsFunded client a =
    (bal : String)
    → client.query_balance a.from a.denom ≡ ok bal
    → amount_below bal a.amount ≡ false

pub check_funds_iff :
    (client : ChainClient) (a : Authorization) → (check_funds client a ≡ ok tt) ↔ IsFunded client a
unfolding check_funds
check_funds_iff client a = (
  λ h bal e. ground arith,
  λ f. ground (arith, f (value_or "" (client.query_balance a.from a.denom))),
)

module _ (lib : SignLib) (N : NonceStore) where
  pub check_nonce_iff :
      (a : Authorization) (s : N.State)
      → (check_nonce lib N a s ≡ ok tt) ↔ (N.exists a.from a.chain_id a.nonce s ≡ ok false)
  unfolding check_nonce
  check_nonce_iff a s = ground arith

  -- Everything that a verified payment has passed.
  pub record IsVerified (v : Verifier) (req : VerifyRequest) (s : N.State) : Type 0 where
    pub client : ChainClient
    pub network : OnNetwork v.chains req.payment_payload req.payment_requirements client
    pub terms :
        MeetsTerms client req.payment_payload.network req.payment_payload.payload.authorization
          req.payment_requirements
    pub window :
        InWindow (v.clock 0) req.payment_payload.payload.authorization req.payment_requirements
    pub fresh :
        N.exists req.payment_payload.payload.authorization.from
          req.payment_payload.payload.authorization.chain_id
          req.payment_payload.payload.authorization.nonce s
        ≡ ok false
    pub signed :
        IsSigned lib req.payment_payload.payload.public_key req.payment_payload.payload.signature
          req.payment_payload.payload.authorization client.account_prefix
    pub granted :
        IsGranted client v.clock req.payment_payload.payload.authorization req.payment_requirements
    pub funded : IsFunded client req.payment_payload.payload.authorization

  -- If `Verify` returns a payer, then the payer is the authorization's `from`, and the payment
  -- has passed every step with one client: scheme and network, terms, validity window, fresh
  -- nonce, the payer's signature over the authorization, the grant, and the balance where the
  -- chain reports one.
  pub verify_sound :
      (v : Verifier) (req : VerifyRequest) (s : N.State) (payer : String)
      → verify lib N v req s ≡ ok payer
      → IsVerified v req s × (payer ≡ req.payment_payload.payload.authorization.from)
  unfolding verify
  verify_sound v req s payer h =
      let pp = req.payment_payload in
      let pr = req.payment_requirements in
      let a = pp.payload.authorization in
      elim (Result-cases (check_network v.chains pp pr)) [
        | inl (e, missed) ↦ ground arith
        | inr (client, found) ↦
            let addr = value_or "" (
              verify_adr036 lib pp.payload.public_key pp.payload.signature a
                client.account_prefix) in
            let sound =
              verify_adr036_sound lib pp.payload.public_key pp.payload.signature a
                client.account_prefix addr (ground arith) in
            (
              record {
                client = client;
                network = (check_network_iff v.chains pp pr client).0 found;
                terms = (check_terms_iff client pp.network a pr).0 (ground arith);
                window = (check_window_iff (v.clock 0) a pr).0 (ground arith);
                fresh = (check_nonce_iff a s).0 (ground arith);
                signed = sound.0;
                granted = (check_grant_iff client v.clock a pr).0 (ground arith);
                funded = (check_funds_iff client a).0 (ground arith);
              },
              ground (arith, sound.1),
            )
      ]

  -- A payment that passes every step, as `IsVerified` lists them, is verified, and `Verify`
  -- returns the `from` of its authorization.
  pub verify_complete :
      (v : Verifier) (req : VerifyRequest) (s : N.State)
      → IsVerified v req s
      → verify lib N v req s ≡ ok req.payment_payload.payload.authorization.from
  unfolding verify
  verify_complete v req s w =
      let pp = req.payment_payload in
      let pr = req.payment_requirements in
      let a = pp.payload.authorization in
      ground (
        arith,
        (check_network_iff v.chains pp pr w.client).1 w.network,
        (check_terms_iff w.client pp.network a pr).1 w.terms,
        (check_window_iff (v.clock 0) a pr).1 w.window,
        (check_nonce_iff a s).1 w.fresh,
        verify_adr036_complete lib pp.payload.public_key pp.payload.signature a
            w.client.account_prefix w.signed,
        (check_grant_iff w.client v.clock a pr).1 w.granted,
        (check_funds_iff w.client a).1 w.funded,
      )

  -- `Verify` returns a payer exactly if the payer is the authorization's `from`, and the payment
  -- has passed every step with one client: scheme and network, terms, validity window, fresh
  -- nonce, the payer's signature over the authorization, grant and funds.
  pub verify_iff :
      (v : Verifier) (req : VerifyRequest) (s : N.State) (payer : String)
      → (verify lib N v req s ≡ ok payer)
        ↔ (IsVerified v req s × (payer ≡ req.payment_payload.payload.authorization.from))
  verify_iff v req s payer =
      (verify_sound v req s payer, λ (verified, from). rw from (verify_complete v req s verified))
