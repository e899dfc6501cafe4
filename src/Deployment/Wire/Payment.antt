-- ===== src/Deployment/Wire/Payment.antt =====
-- The demo client, the demo server and the facilitator with the decoders of Go's encoding/json: what
-- is paid when the client prints a body.
use cosmos_pay.Prelude.{
  ℕ, String, ◌≡◌, refl, ap, ◌∙◌, ◌==◌, Bool, none, some, List, [], arith, if◌then◌else◌,
}
use cosmos_pay.Clock.{Time}
use cosmos_pay.Errors.{Result, ok}
use cosmos_pay.Types.{PaymentPayload, PaymentRequirements}
use cosmos_pay.Types.Codes.{scheme_id}
use cosmos_pay.Types.Decode.{unmarshal_requirements, decode_request}
use cosmos_pay.Encoding.Json.{Json, print}
use cosmos_pay.Encoding.Json.Value.{Fields}
use cosmos_pay.Nonces.{NonceStore}
use cosmos_pay.Nonces.Contract.{Contract}
use cosmos_pay.Adr036.{SignLib, Bytes}
use cosmos_pay.Verify.{Verifier}
use cosmos_pay.Settle.{Broadcast, settle}
use cosmos_pay.Settle.Laws.{sent_of, broadcast_for}
use cosmos_pay.Http.{Header, Request, ResponseWriter, new_writer, get_header}
use cosmos_pay.Middleware.{
  Config, HttpLib, build_requirements, settle_request, settle_url, with_defaults, decode_payload,
}
use cosmos_pay.Types.Decode.Laws.{PayloadFits}
use cosmos_pay.Middleware.Laws.{signature_header}
use cosmos_pay.Server.{with_line_break, settle_handler}
use cosmos_pay.Noble.Config.{Env, KeyLib}
use cosmos_pay.Client.{PrivKey, build_authorization, build_payload, pay}
use cosmos_pay.Client.Run.{Response, ClientLib, nonce_of, client_main}
use cosmos_pay.Client.Run.Laws.{IsRetried}
use cosmos_pay.DemoServer.{demo_config, premium_json, premium}
use cosmos_pay.DemoServer.Laws.{
  page_request, IsReached, paying_request, demo_config_terms, client_main_served, client_main_asked,
}
use cosmos_pay.Deployment.{post_of}
use cosmos_pay.Deployment.Wire.{
  json_http, build_requirements-RequirementsFit, decode_payload-payment_header,
  decode_header-requirements_header, served_pays_over_json,
}
use cosmos_pay.Deployment.Wire.Exchange.{pay-PayloadFits}

-- What the client signs is the recipient, the amount and the coin that it is asked for.
pay_terms :
    (lib : SignLib) (priv : PrivKey) (r : PaymentRequirements) (addr nonce : String)
    (expired : Bool) (now : ℕ) (payload : PaymentPayload)
    → pay lib priv r addr nonce expired now ≡ ok payload
    → (payload.payload.authorization.to ≡ r.pay_to)
      × (payload.payload.authorization.amount ≡ r.max_amount_required)
      × (payload.payload.authorization.denom ≡ r.asset)
unfolding pay build_payload build_authorization
pay_terms lib priv r addr nonce expired now payload h = (ground arith, ground arith, ground arith)

module _ (free : Fields → List (String × Json) → Result (List (String × Json)))
    (post : ℕ → String → Bytes → Result Bytes) (get : ℕ → String → Header → Result Response)
    (body_text : Bytes → String) (other : ResponseWriter → Request → ResponseWriter) (cfg : Config)
    (clock : ℕ → Time) (host : String) (lib : SignLib) (keys : KeyLib) (key_of : Bytes → PrivKey)
    (env : Env) (random : Bytes) (now : ℕ) (N : NonceStore) (K : Contract N) (v : Verifier)
    (s : N.State) where
  abbrev https : ℕ → HttpLib
  https n = json_http (post n)

  abbrev client : ClientLib
  client = record {
    unmarshal_requirements = unmarshal_requirements free;
    get = get;
    body_text = body_text;
  }

  abbrev pub retry : PaymentPayload → Request
  retry = paying_request https other cfg clock host lib keys key_of client env

  abbrev terms : PaymentRequirements
  terms = build_requirements (with_defaults cfg) (page_request host [])

  -- The payment of the client is to the terms that the page's refusal had in its header.
  retried_terms :
      (server_env : Env) (addr : String) (body : Bytes)
      → demo_config server_env ≡ ok (addr, cfg)
      → IsReached https other cfg clock host lib keys key_of client env
      → (p : IsRetried lib keys key_of client env random now body) → p.requirements ≡ terms
  retried_terms server_env addr body configured reached p =
      let (_, _, _, timeout, decimals) =
        demo_config_terms server_env addr cfg (page_request host []) configured in
      let asked =
        client_main_asked https other cfg clock host lib keys key_of client env random now body
          reached p in
      let sent = decode_header-requirements_header free terms (
        build_requirements-RequirementsFit cfg (page_request host [])
          (ground arith, ground arith)) in
      let read = rw asked at p.read in ground (arith, sent, read)

  carried_payload :
      (payload pp : PaymentPayload)
      → PayloadFits payload
      → payload.scheme ≡ scheme_id
      → decode_payload
          (https 1)
          (signature_header (https 1) (premium (clock 1)) cfg new_writer (retry payload))
        ≡ ok pp
      → pp ≡ payload
  unfolding get_header
  carried_payload payload pp widths scheme decoded =
      let sent = decode_payload-payment_header (post 1) payload widths scheme in
      ground (arith, decoded, sent)

  -- Let the demo server's configuration come from its environment, the demo client's
  -- requests reach its page, the middleware's client reach the settlement endpoint of the
  -- facilitator, whose store keeps the contract, and all parts decode JSON as encoding/json
  -- does. If the client prints a body, then the settlement of the payment that it signed
  -- made a broadcast without an error, of a transfer to the recipient, of the amount and in
  -- the coin of the server's environment, and the body is the page.
  pub client_main_pays :
      (server_env : Env) (addr : String) (body : Bytes)
      → demo_config server_env ≡ ok (addr, cfg)
      → IsReached https other cfg clock host lib keys key_of client env
      → ((posted : Bytes)
          → post 1 (settle_url cfg) posted
            ≡ ok
                (settle_handler lib N (decode_request free) v new_writer (post_of posted) s).0.body)
      → client_main lib keys key_of client env random now ≡ ok body
      → (p : IsRetried lib keys key_of client env random now body) × (transfer : Broadcast)
        × (sent_of (
              settle lib N v
                (settle_request p.payload
                  (build_requirements (with_defaults cfg) (retry p.payload)))
                s)
            ≡ some transfer)
        × (transfer.error ≡ none)
        × (transfer.to ≡ server_env "X402_PAY_TO")
        × (transfer.amount
            ≡ (if server_env "X402_AMOUNT" == "" then "10000" else server_env "X402_AMOUNT"))
        × (transfer.denom
            ≡ (if server_env "X402_ASSET" == "" then "uusdc" else server_env "X402_ASSET"))
        × (body ≡ with_line_break (print (premium_json (clock 1))))
  client_main_pays server_env addr body configured reached posts h =
      let (p, served, page) =
        client_main_served https other cfg clock host lib keys key_of client env random now body
          reached h in
      let (to, amount, denom, timeout, decimals) =
        demo_config_terms server_env addr cfg (page_request host []) configured in
      let (signed_to, signed_amount, signed_denom) =
        pay_terms lib (key_of p.priv) p.requirements p.addr (nonce_of env random)
          (env "X402_EXPIRED" == "1") now p.payload p.paid in
      let (widths, scheme) =
        pay-PayloadFits lib (key_of p.priv) p.requirements p.addr (nonce_of env random)
          (env "X402_EXPIRED" == "1") now p.payload p.paid in
      let same = retried_terms server_env addr body configured reached p in
      let (pp, response, decoded, settled) =
        served_pays_over_json free (post 1) (premium (clock 1)) cfg new_writer (retry p.payload) lib
          N K v s (ground arith, ground arith) posts served in
      let carried = carried_payload p.payload pp widths scheme decoded in
      (
        p,
        broadcast_for p.payload.payload.authorization (settled.tx_hash, none),
        rw carried at settled.recorded,
        refl,
        signed_to ∙ ap (λ x. x.pay_to) same ∙ to,
        signed_amount ∙ ap (λ x. x.max_amount_required) same ∙ amount,
        signed_denom ∙ ap (λ x. x.asset) same ∙ denom,
        page,
      )
