-- ===== src/Deployment/Wire/Exchange.antt =====
-- The demo client, the demo server and the facilitator with the decoders of Go's encoding/json.
use cosmos_pay.Prelude.{ℕ, String, ◌<◌, ◌≡◌, false, true, Bool, none, some, List, arith}
use cosmos_pay.Prelude.Words.{word}
use cosmos_pay.Clock.{Time}
use cosmos_pay.Errors.{Result, ok}
use cosmos_pay.Types.{PaymentPayload, PaymentRequirements}
use cosmos_pay.Types.Codes.{scheme_id}
use cosmos_pay.Types.Decode.{unmarshal_requirements, decode_request}
use cosmos_pay.Types.Decode.Laws.{PayloadFits}
use cosmos_pay.Encoding.Json.{Json, print}
use cosmos_pay.Encoding.Json.Value.{Fields}
use cosmos_pay.Nonces.{NonceStore}
use cosmos_pay.Nonces.Contract.{Contract}
use cosmos_pay.Chain.{ChainClient}
use cosmos_pay.Adr036.{SignLib, Bytes}
use cosmos_pay.Verify.{Verifier}
use cosmos_pay.Settle.{settle}
use cosmos_pay.Settle.Laws.{auth, sent_of, broadcast_for}
use cosmos_pay.Http.{Header, Request, ResponseWriter, new_writer}
use cosmos_pay.Middleware.{Config, HttpLib, settle_request, settle_url}
use cosmos_pay.Server.{with_line_break, settle_handler}
use cosmos_pay.Noble.Config.{Env, KeyLib}
use cosmos_pay.Client.{PrivKey, window, build_authorization, build_payload, pay}
use cosmos_pay.Client.Run.{Response, ClientLib, nonce_of, client_main}
use cosmos_pay.DemoServer.{premium_json, premium}
use cosmos_pay.Deployment.{post_of}
use cosmos_pay.Deployment.Exchange.{page_requirements, paid_request, IsPrepared, exchange_completes}
use cosmos_pay.Deployment.Wire.{
  ConfigFits, json_http, build_requirements-RequirementsFit, decode_payload-payment_header,
  decode_header-requirements_header, json-IsConnected,
}

window-lt :
    (expired : Bool) (now : ℕ) → ((window expired now).0 < word) × ((window expired now).1 < word)
unfolding window
window-lt true now = (omega arith, omega arith)
window-lt false now = (omega arith, omega arith)

-- The client's payment has integers of the width of their types, and the scheme.
pub pay-PayloadFits :
    (lib : SignLib) (priv : PrivKey) (requirements : PaymentRequirements) (addr nonce : String)
    (expired : Bool) (now : ℕ) (payload : PaymentPayload)
    → pay lib priv requirements addr nonce expired now ≡ ok payload
    → PayloadFits payload × (payload.scheme ≡ scheme_id)
unfolding pay build_payload build_authorization
pay-PayloadFits lib priv requirements addr nonce expired now payload paid =
    let (after, before) = window-lt expired now in (ground arith, ground arith)

module _ (free : Fields → List (String × Json) → Result (List (String × Json)))
    (post : ℕ → String → Bytes → Result Bytes) (get : ℕ → String → Header → Result Response)
    (body_text : Bytes → String) (other : ResponseWriter → Request → ResponseWriter) (cfg : Config)
    (clock : ℕ → Time) (host : String) (lib : SignLib) (keys : KeyLib) (key_of : Bytes → PrivKey)
    (env : Env) (random : Bytes) (now : ℕ) (N : NonceStore) (K : Contract N) (v : Verifier)
    (s : N.State) (node : ChainClient) where
  abbrev pub json_https : ℕ → HttpLib
  json_https n = json_http (post n)

  abbrev pub json_client : ClientLib
  json_client = record {
    unmarshal_requirements = unmarshal_requirements free;
    get = get;
    body_text = body_text;
  }

  abbrev asked_for : PaymentRequirements
  asked_for =
      page_requirements json_https other cfg clock host lib keys key_of json_client env random now N
        K (decode_request free) v s node

  -- Let all parts decode JSON as encoding/json does, and the middleware's client reach the
  -- settlement endpoint of the facilitator, whose store keeps the contract; let the
  -- configured timeout and decimals have the width of their types, the demo client reach the
  -- demo server, its key work, the facilitator be ready for the payment, and its chain
  -- accept the transfer. Then the client prints the page, and the settlement of its payment
  -- makes exactly that transfer.
  pub exchange_completes_over_json :
      (priv : Bytes) (addr tx_hash : String) (payload : PaymentPayload)
      → ConfigFits cfg
      → ((body : Bytes)
          → post 1 (settle_url cfg) body
            ≡ ok (settle_handler lib N (decode_request free) v new_writer (post_of body) s).0.body)
      → IsPrepared json_https other cfg clock host lib keys key_of json_client env random now N K
          (decode_request free)
          v
          s
          node
          priv
          addr
          tx_hash
          payload
      → (client_main lib keys key_of json_client env random now
          ≡ ok (with_line_break (print (premium_json (clock 1)))))
        × (sent_of (settle lib N v (settle_request payload asked_for) s)
            ≡ some (broadcast_for (auth (settle_request payload asked_for)) (tx_hash, none)))
  exchange_completes_over_json priv addr tx_hash payload fits posts p =
      let (widths, scheme) =
        pay-PayloadFits lib (key_of priv) asked_for addr (nonce_of env random) false now payload
          p.signed in
      exchange_completes json_https other cfg clock host lib keys key_of json_client env random now
        N K (decode_request free) v s node priv addr tx_hash payload
        (record {
          prepared = p;
          connected =
              json-IsConnected free (post 1) (premium (clock 1)) cfg new_writer
                (paid_request json_https other cfg clock host lib keys key_of json_client env random
                  now N K (decode_request free) v s node payload)
                lib N K v s fits posts;
          reads_requirements =
              decode_header-requirements_header free asked_for
                (build_requirements-RequirementsFit cfg _ fits);
          reads_payload = decode_payload-payment_header (post 1) payload widths scheme;
        })
