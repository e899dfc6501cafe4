-- ===== src/Deployment/Wire.antt =====
-- The middleware, the facilitator and the demo client with the decoders of Go's encoding/json, which
-- read back what the other side encoded.
pub mod Exchange
pub mod Payment
use mathlib.Core.Option.{none, some}
use cosmos_pay.Prelude.{
  ℕ, ◌<◌, ◌≡◌, refl, ap, String, true, List, [], ◌∷◌, ◌++◌, arith, eqb, if◌then◌else◌, eq_iff, ◌==◌,
  not,
}
use cosmos_pay.Prelude.Words.{word}
use cosmos_pay.Errors.{Result, ok, value_or}
use cosmos_pay.Types.{PaymentPayload, PaymentRequirements, SettleRequest, SettleResponse}
use cosmos_pay.Types.Codes.{scheme_id}
use cosmos_pay.Types.Tags.{payload_json, requirements_json, settle_response_json}
use cosmos_pay.Types.Decode.{
  unmarshal_payload, decode_settle_response, unmarshal_requirements, decode_request,
}
use cosmos_pay.Types.Decode.Laws.{
  PayloadFits, RequirementsFit, unmarshal_payload-payload_json,
  decode_settle_response-settle_response_json, unmarshal_requirements-requirements_json,
  decode_request-request_json,
}
use cosmos_pay.Types.Decode.Bounds.{unmarshal_payload-PayloadFits}
use cosmos_pay.Encoding.Base64
use cosmos_pay.Encoding.Base64.Laws.{decode-encode}
use cosmos_pay.Encoding.Json.{Json, print}
use cosmos_pay.Encoding.Json.Value.{Fields}
use cosmos_pay.Encoding.Json.Bytes.{print-AreBytes}
use cosmos_pay.Nonces.{NonceStore}
use cosmos_pay.Nonces.Contract.{Contract}
use cosmos_pay.Adr036.{SignLib, Bytes}
use cosmos_pay.Verify.{Verifier}
use cosmos_pay.Settle.Laws.{IsPaid}
use cosmos_pay.Http.{Request, ResponseWriter, new_writer}
use cosmos_pay.Middleware.{
  Config, HttpLib, build_requirements, requirements_header, decode_payload, settle_request,
  settle_url, with_defaults, paid,
}
use cosmos_pay.Middleware.Laws.{asked, signature_header}
use cosmos_pay.Server.{with_line_break, settle_handler}
use cosmos_pay.Client.{decode_header, payment_header}
use cosmos_pay.Deployment.{IsConnected, post_of, encoded_response, served_pays}

-- The integers of a configuration have the width of their types.
abbrev pub ConfigFits : Config → Type 0
ConfigFits cfg = (cfg.max_timeout_seconds < word) × (cfg.decimals < 256)

-- the middleware's libraries, with an HTTP client
abbrev pub json_http : (String → Bytes → Result Bytes) → HttpLib
json_http post = record {
  unmarshal_payload = unmarshal_payload;
  decode_settle_response = decode_settle_response;
  post = post;
}

with_line_break_append : (s : Bytes) → with_line_break s ≡ s ++ 10 ∷ []
with_line_break_append [] = refl
with_line_break_append (b ∷ s) = ap (λ t. b ∷ t) (with_line_break_append s)

build_requirements-RequirementsFit :
    (cfg : Config) (r : Request)
    → ConfigFits cfg
    → RequirementsFit (build_requirements (with_defaults cfg) r)
unfolding build_requirements
build_requirements-RequirementsFit cfg r h = (ground arith, ground arith, refl)

decode-print : (v : Json) → Base64.decode (Base64.encode (print v)) ≡ ok (print v)
decode-print v = decode-encode (print v) (print-AreBytes v)

-- The middleware reads the payload that the client put into the header.
pub decode_payload-payment_header :
    (post : String → Bytes → Result Bytes) (p : PaymentPayload)
    → PayloadFits p
    → p.scheme ≡ scheme_id
    → decode_payload (json_http post) (payment_header p) ≡ ok p
unfolding decode_payload
decode_payload-payment_header post p fits scheme =
    let same : (p.scheme == scheme_id) ≡ true = ground (arith, eq_iff p.scheme scheme_id, scheme) in
    rw (decode-print (payload_json p), unmarshal_payload-payload_json p fits, same) refl

-- What the middleware reads from a header has integers of the width of their types.
pub decode_payload-PayloadFits :
    (post : String → Bytes → Result Bytes) (header : String) (p : PaymentPayload)
    → decode_payload (json_http post) header ≡ ok p
    → PayloadFits p
unfolding decode_payload
decode_payload-PayloadFits post header p h =
    ground (arith, h, unmarshal_payload-PayloadFits (value_or [] (Base64.decode header)) p)

module _ (free : Fields → List (String × Json) → Result (List (String × Json))) where
  -- The client reads the requirements that the middleware put into the header.
  pub decode_header-requirements_header :
      (r : PaymentRequirements)
      → RequirementsFit r
      → decode_header (unmarshal_requirements free) (requirements_header r) ≡ ok r
  unfolding decode_header
  decode_header-requirements_header r h =
      rw (decode-print (requirements_json r), unmarshal_requirements-requirements_json free r h)
        refl

  module _ (post : String → Bytes → Result Bytes) (next : ResponseWriter → Request → ResponseWriter)
      (cfg : Config) (w : ResponseWriter) (r : Request) (lib : SignLib) (N : NonceStore)
      (K : Contract N) (v : Verifier) (s : N.State) where
    pub json-IsConnected :
        ConfigFits cfg
        → ((body : Bytes)
            → post (settle_url cfg) body
              ≡ ok
                  (settle_handler lib N (decode_request free) v new_writer (post_of body) s).0.body)
        → IsConnected (json_http post) next cfg w r lib N K (decode_request free) v s
    json-IsConnected fits posts = record {
      posts = posts;
      reads_request = λ pp decoded.
          decode_request-request_json free (settle_request pp (asked (json_http post) next cfg w r))
            (
              omega arith,
              decode_payload-PayloadFits post (signature_header (json_http post) next cfg w r) pp
                  decoded,
              build_requirements-RequirementsFit cfg r fits,
            );
      reads_response = λ pp response decoded given.
          rw (with_line_break_append (print (settle_response_json response)))
            (decode_settle_response-settle_response_json response);
    }

    -- Let both sides decode JSON as encoding/json does, and the middleware's client reach
    -- the settlement endpoint of the facilitator, whose store keeps the contract; let the
    -- configured timeout and decimals have the width of their types. If the inner handler
    -- runs, then the header of the request decodes to a payload for which, with the
    -- middleware's requirements, the settlement verified and broadcast the payment with
    -- success.
    pub served_pays_over_json :
        ConfigFits cfg
        → ((body : Bytes)
            → post (settle_url cfg) body
              ≡ ok
                  (settle_handler lib N (decode_request free) v new_writer (post_of body) s).0.body)
        → (paid (json_http post) next cfg w r).served ≡ true
        → (pp : PaymentPayload) × (response : SettleResponse) × (decode_payload
              (json_http post)
              (signature_header (json_http post) next cfg w r)
            ≡ ok pp)
          × IsPaid lib N K v (settle_request pp (asked (json_http post) next cfg w r)) s response
    served_pays_over_json fits posts served =
        served_pays (json_http post) next cfg w r lib N K (decode_request free) v s
          (json-IsConnected fits posts) served
