-- ===== src/Verify/Refusals/Laws.antt =====
-- facilitator/verify.go: `Verify` against the list of refusals.
use cosmos_pay.Prelude.{String, ◌≡◌, ◌↔◌, inl, inr, some, arith}
use cosmos_pay.Errors.{Result, ok, ◌>>◌, error_code, Result-cases}
use cosmos_pay.Types.{PaymentRequirements, VerifyRequest, Authorization}
use cosmos_pay.Nonces.{NonceStore}
use cosmos_pay.Chain.{ChainClient}
use cosmos_pay.Adr036.{SignLib, verify_adr036}
use cosmos_pay.Adr036.Laws.{verify_adr036_sound, verify_adr036_complete}
use cosmos_pay.Verify.{
  Verifier, check_network, check_terms, check_window, check_nonce, check_grant, check_funds, verify,
}
use cosmos_pay.Verify.Nonces.{code_of}
use cosmos_pay.Verify.Laws.{
  check_network_iff, check_terms_iff, check_window_iff, check_nonce_iff, check_grant_iff,
  check_funds_iff,
}
use cosmos_pay.Verify.Refusals.Codes.{
  no_grant, too_small, ended, network_code, terms_code, window_code, grant_code, funds_code,
}
use cosmos_pay.Verify.Refusals.{
  AtTerms, AtWindow, AtNonce, AtGrant, Refused, bad_network, bad_terms, outside_window, bad_window,
  nonce_seen, store_failed, not_signed, not_granted, grant_unknown, not_funded,
}
use cosmos_pay.Verify.Refusals.Sound.{verify-Refused}

module _ (lib : SignLib) (N : NonceStore) (v : Verifier) (req : VerifyRequest) (s : N.State) where
  abbrev a : Authorization
  a = req.payment_payload.payload.authorization

  abbrev pr : PaymentRequirements
  pr = req.payment_requirements

  abbrev signed : ChainClient → Result String
  signed client =
      verify_adr036 lib req.payment_payload.payload.public_key req.payment_payload.payload.signature
        a client.account_prefix

  network_passes :
      (client : ChainClient)
      → AtTerms lib N v req s client
      → check_network v.chains req.payment_payload pr ≡ ok client
  network_passes client at = (check_network_iff v.chains req.payment_payload pr client).1 at

  terms_pass :
      (client : ChainClient)
      → AtWindow lib N v req s client
      → check_terms client req.payment_payload.network a pr ≡ ok tt
  terms_pass client at = (check_terms_iff client req.payment_payload.network a pr).1 at.1

  window_passes :
      (client : ChainClient) → AtNonce lib N v req s client → check_window (v.clock 0) a pr ≡ ok tt
  window_passes client at = (check_window_iff (v.clock 0) a pr).1 at.1

  signature_passes :
      (client : ChainClient) → AtGrant lib N v req s client → signed client ≡ ok a.from
  signature_passes client at =
      verify_adr036_complete lib req.payment_payload.payload.public_key
        req.payment_payload.payload.signature a client.account_prefix at.1

  -- up to the grant, the verification has passed
  grant_passes :
      (client : ChainClient)
      → AtGrant lib N v req s client
      → verify lib N v req s
        ≡ (check_grant client v.clock a pr >> (check_funds client a >> ok a.from))
  unfolding verify
  grant_passes client at = ground (
    arith,
    network_passes client at.0.0.0.0,
    terms_pass client at.0.0.0,
    window_passes client at.0.0,
    (check_nonce_iff lib N a s).1 at.0.1,
    signature_passes client at,
  )

  Refused-code :
      (code : String) → Refused lib N v req s code → code_of (verify lib N v req s) ≡ some code
  unfolding verify
  Refused-code code (bad_network none_there same) =
      elim (Result-cases (check_network v.chains req.payment_payload pr)) [
        | inl (f, failed) ↦ ground (arith, network_code v.chains req.payment_payload pr f failed)
        | inr (client, found) ↦
            absurd (
              none_there client
                ((check_network_iff v.chains req.payment_payload pr client).0 found))
      ]
  Refused-code code (bad_terms client at not_met same) =
      elim (Result-cases (check_terms client req.payment_payload.network a pr)) [
        | inl (f, failed) ↦ ground (
          arith,
          network_passes client at,
          terms_code client req.payment_payload.network a pr f failed,
        )
        | inr (_, passed) ↦
            absurd
              (not_met ((check_terms_iff client req.payment_payload.network a pr).0 (ground arith)))
      ]
  Refused-code code (outside_window client at out same) =
      elim (Result-cases (check_window (v.clock 0) a pr)) [
        | inl (f, failed) ↦ ground (
          arith,
          network_passes client at.0,
          terms_pass client at,
          window_code (v.clock 0) a pr f failed,
        )
        | inr (_, passed) ↦
            let w = (check_window_iff (v.clock 0) a pr).0 (ground arith) in absurd (ground arith)
      ]
  Refused-code code (bad_window client at inside not_in same) =
      elim (Result-cases (check_window (v.clock 0) a pr)) [
        | inl (f, failed) ↦ ground (
          arith,
          network_passes client at.0,
          terms_pass client at,
          window_code (v.clock 0) a pr f failed,
        )
        | inr (_, passed) ↦ absurd (not_in ((check_window_iff (v.clock 0) a pr).0 (ground arith)))
      ]
  Refused-code code (nonce_seen client at seen same) =
      unfold check_nonce error_code in
      ground (arith, network_passes client at.0.0, terms_pass client at.0, window_passes client at)
  Refused-code code (store_failed client e at failed same) =
      unfold check_nonce error_code in
      ground (arith, network_passes client at.0.0, terms_pass client at.0, window_passes client at)
  Refused-code code (not_signed client at unsigned same) = elim (Result-cases (signed client)) [
    | inl (f, failed) ↦
        unfold error_code in
        ground (
          arith,
          network_passes client at.0.0.0,
          terms_pass client at.0.0,
          window_passes client at.0,
          (check_nonce_iff lib N a s).1 at.1,
        )
    | inr (addr, sign) ↦ absurd (
        unsigned
          (verify_adr036_sound lib req.payment_payload.payload.public_key
            req.payment_payload.payload.signature a client.account_prefix addr sign).0)
  ]
  Refused-code code (not_granted client at short same) =
      elim (Result-cases (check_grant client v.clock a pr)) [
        | inl (f, failed) ↦ elim (grant_code client v.clock a pr f failed) [
          | inl (_, known) ↦ ground (arith, known, grant_passes client at)
          | inr (_, answered, other, _) ↦ absurd (elim short [
            | no_grant e h k ↦ ground arith
            | too_small limit exp h k ↦ ground arith
            | ended limit exp h k m ↦ ground arith
          ])
        ]
        | inr (_, passed) ↦
            let g = (check_grant_iff client v.clock a pr).0 (ground arith) in
            absurd (elim short [
              | no_grant e h k ↦ ground (arith, g.answered)
              | too_small limit exp h k ↦ ground (arith, g.answered, g.covers)
              | ended limit exp h k m ↦ ground (arith, g.answered, g.lasting)
            ])
      ]
  Refused-code code (grant_unknown client e at answered other same) =
      elim (Result-cases (check_grant client v.clock a pr)) [
        | inl (f, failed) ↦ elim (grant_code client v.clock a pr f failed) [
          | inl (short, _) ↦ absurd (elim short [
            | no_grant e h k ↦ ground arith
            | too_small limit exp h k ↦ ground arith
            | ended limit exp h k m ↦ ground arith
          ])
          | inr (_, _, _, known) ↦ ground (arith, known, grant_passes client at)
        ]
        | inr (_, passed) ↦
            let g = (check_grant_iff client v.clock a pr).0 (ground arith) in
            absurd (ground (arith, g.answered))
      ]
  Refused-code code (not_funded client at granted unfunded same) =
      elim (Result-cases (check_funds client a)) [
        | inl (f, failed) ↦ ground (
          arith,
          grant_passes client at,
          (check_grant_iff client v.clock a pr).1 granted,
          funds_code client a f failed,
        )
        | inr (_, passed) ↦ absurd (unfunded ((check_funds_iff client a).0 (ground arith)))
      ]

  -- `Verify` gives an error code exactly if it is the code that the source has for the first step
  -- that does not pass: network, terms, clock, window, nonce, store, signature, grant and its
  -- query, funds, in this order.
  pub verify_code_iff :
      (code : String) → (code_of (verify lib N v req s) ≡ some code) ↔ Refused lib N v req s code
  verify_code_iff code = (
    λ h. elim (Result-cases (verify lib N v req s)) [
      | inl (e, failed) ↦
          let same : error_code e ≡ code = ground arith in
          rw same at (verify-Refused lib N v req s e failed)
      | inr (payer, passed) ↦ absurd (ground arith)
    ],
    Refused-code code,
  )
