-- ===== src/Server/Laws.antt =====
-- facilitator/cmd/main.go: the settlement endpoint on its branches.
use cosmos_pay.Prelude.{◌≡◌, ◌≢◌, ◌⊎◌, inl, inr, refl, eq_iff, none, some, arith}
use cosmos_pay.Errors.{Error, Result, ok, err}
use cosmos_pay.Types.{VerifyRequest, SettleResponse}
use cosmos_pay.Types.Tags.{settle_response_json}
use cosmos_pay.Nonces.{NonceStore}
use cosmos_pay.Nonces.Contract.{Contract}
use cosmos_pay.Adr036.{SignLib, Bytes}
use cosmos_pay.Verify.{Verifier}
use cosmos_pay.Settle.{Outcome, responded, panicked, settle}
use cosmos_pay.Settle.Laws.{response_of, settle-ne-panicked}
use cosmos_pay.Http.{Request, ResponseWriter, status_ok}
use cosmos_pay.Server.{write_json, settled, settle_handler}

module _ (lib : SignLib) (N : NonceStore) (decode : Bytes → Result VerifyRequest) where
  answered :
      (w : ResponseWriter) (o : Outcome N.State)
      → ((response : SettleResponse) × (response_of o ≡ some response)
          × (settled lib N decode o w
              ≡ (write_json w status_ok (settle_response_json response), o)))
        ⊎ ((s : N.State) × (o ≡ panicked s))
  answered w (responded response s sent) = inl (response, refl, refl)
  answered w (panicked s) = inr (s, refl)

  -- Over any store that keeps the contract: for a posted request that decodes, the settlement
  -- endpoint makes the settlement of the decoded request, which gives a response, and writes that
  -- response with status 200.
  pub settle_handler_settles :
      (v : Verifier) (w : ResponseWriter) (r : Request) (req : VerifyRequest) (s : N.State)
      → Contract N
      → r.method ≡ "POST"
      → decode r.body ≡ ok req
      → (response : SettleResponse) × (response_of (settle lib N v req s) ≡ some response)
        × (settle_handler lib N decode v w r s
            ≡ (write_json w status_ok (settle_response_json response), some (settle lib N v req s)))
  unfolding settle_handler
  settle_handler_settles v w r req s K posted decoded = elim (answered w (settle lib N v req s)) [
    | inl (response, given, written) ↦ (response, given, ground (arith, eq_iff r.method "POST"))
    | inr (s', panics) ↦ absurd (settle-ne-panicked lib N K v req s s' panics)
  ]

  -- For a request that is not posted or does not decode, the settlement endpoint makes no
  -- settlement.
  pub settle_handler_refuses :
      (v : Verifier) (w : ResponseWriter) (r : Request) (s : N.State)
      → ((r.method ≢ "POST") ⊎ ((e : Error) × (decode r.body ≡ err e)))
      → (settle_handler lib N decode v w r s).1 ≡ none
  unfolding settle_handler
  settle_handler_refuses v w r s bad = ground (arith, eq_iff r.method "POST")
