-- ===== src/Verify/Refusals/Sound.antt =====
-- facilitator/verify.go: the refusal behind each error of `Verify`.
use cosmos_pay.Prelude.{String, ◌≡◌, inl, inr, true, false, arith}
use cosmos_pay.Errors.{Error, Result, err, error_code, Result-cases}
use cosmos_pay.Types.{PaymentRequirements, VerifyRequest, Authorization}
use cosmos_pay.Nonces.{NonceStore}
use cosmos_pay.Chain.{ChainClient}
use cosmos_pay.Adr036.{SignLib, verify_adr036}
use cosmos_pay.Adr036.Laws.{verify_adr036_sound, verify_adr036_complete}
use cosmos_pay.Verify.{
  Verifier, check_network, check_terms, check_window, check_nonce, check_grant, verify,
}
use cosmos_pay.Verify.Laws.{
  check_network_iff, check_terms_iff, check_window_iff, check_nonce_iff, check_grant_iff,
  check_funds_iff,
}
use cosmos_pay.Verify.Refusals.Codes.{network_code, terms_code, window_code, grant_code, funds_code}
use cosmos_pay.Verify.Refusals.{
  AtNonce, AtGrant, Refused, bad_network, bad_terms, outside_window, bad_window, nonce_seen,
  store_failed, not_signed, not_granted, grant_unknown, not_funded,
}

module _ (lib : SignLib) (N : NonceStore) (v : Verifier) (req : VerifyRequest) (s : N.State) where
  abbrev a : Authorization
  a = req.payment_payload.payload.authorization

  abbrev pr : PaymentRequirements
  pr = req.payment_requirements

  abbrev signed : ChainClient → Result String
  signed client =
      verify_adr036 lib req.payment_payload.payload.public_key req.payment_payload.payload.signature
        a client.account_prefix

  grant-Refused :
      (client : ChainClient) (e : Error)
      → AtGrant lib N v req s client
      → verify lib N v req s ≡ err e
      → Refused lib N v req s (error_code e)
  unfolding verify
  grant-Refused client e at h =
      let network = (check_network_iff v.chains req.payment_payload pr client).1 at.0.0.0.0 in
      let terms = (check_terms_iff client req.payment_payload.network a pr).1 at.0.0.0.1 in
      let window = (check_window_iff (v.clock 0) a pr).1 at.0.0.1 in
      let fresh = (check_nonce_iff lib N a s).1 at.0.1 in
      let sign =
        verify_adr036_complete lib req.payment_payload.payload.public_key
          req.payment_payload.payload.signature a client.account_prefix at.1 in
      elim (Result-cases (check_grant client v.clock a pr)) [
        | inl (f, failed) ↦ elim (grant_code client v.clock a pr e (ground arith)) [
          | inl (short, code) ↦ not_granted client at short code
          | inr (f, answered, other, code) ↦ grant_unknown client f at answered other code
        ]
        | inr (_, granted) ↦
            not_funded client at ((check_grant_iff client v.clock a pr).0 (ground arith))
              (λ funded. ground (arith, (check_funds_iff client a).1 funded))
              (funds_code client a e (ground arith))
      ]

  nonce-Refused :
      (client : ChainClient) (e : Error)
      → AtNonce lib N v req s client
      → verify lib N v req s ≡ err e
      → Refused lib N v req s (error_code e)
  unfolding verify check_nonce error_code
  nonce-Refused client e at h =
      let network = (check_network_iff v.chains req.payment_payload pr client).1 at.0.0 in
      let terms = (check_terms_iff client req.payment_payload.network a pr).1 at.0.1 in
      let window = (check_window_iff (v.clock 0) a pr).1 at.1 in
      elim (Result-cases (N.exists a.from a.chain_id a.nonce s)) [
        | inl (f, failed) ↦ store_failed client f at failed (ground arith)
        | inr (true, seen) ↦ nonce_seen client at seen (ground arith)
        | inr (false, fresh) ↦ elim (Result-cases (signed client)) [
          | inl (f, failed) ↦
              not_signed client (at, fresh)
                (λ sign.
                  let done =
                    verify_adr036_complete lib req.payment_payload.payload.public_key
                      req.payment_payload.payload.signature a client.account_prefix sign in
                  ground arith)
                (ground arith)
          | inr (addr, sign) ↦
              grant-Refused client e
                (
                  (at, fresh),
                  (verify_adr036_sound lib req.payment_payload.payload.public_key
                      req.payment_payload.payload.signature a client.account_prefix addr sign).0,
                )
                h
        ]
      ]

  pub verify-Refused :
      (e : Error) → verify lib N v req s ≡ err e → Refused lib N v req s (error_code e)
  unfolding verify
  verify-Refused e h = elim (Result-cases (check_network v.chains req.payment_payload pr)) [
    | inl (f, failed) ↦
        bad_network
          (λ client at.
            ground (arith, (check_network_iff v.chains req.payment_payload pr client).1 at))
          (network_code v.chains req.payment_payload pr e (ground arith))
    | inr (client, found) ↦
        let on = (check_network_iff v.chains req.payment_payload pr client).0 found in
        elim (Result-cases (check_terms client req.payment_payload.network a pr)) [
          | inl (f, failed) ↦
              bad_terms client on
                (λ m. ground (arith, (check_terms_iff client req.payment_payload.network a pr).1 m))
                (terms_code client req.payment_payload.network a pr e (ground arith))
          | inr (_, met) ↦
              let terms =
                (check_terms_iff client req.payment_payload.network a pr).0 (ground arith) in
              elim (Result-cases (check_window (v.clock 0) a pr)) [
                | inl (f, failed) ↦ elim (window_code (v.clock 0) a pr e (ground arith)) [
                  | inl (out, code) ↦ outside_window client (on, terms) out code
                  | inr (inside, code) ↦
                      bad_window client (on, terms) inside
                        (λ w. ground (arith, (check_window_iff (v.clock 0) a pr).1 w)) code
                ]
                | inr (_, within) ↦
                    nonce-Refused client e
                      ((on, terms), (check_window_iff (v.clock 0) a pr).0 (ground arith)) h
              ]
        ]
  ]
