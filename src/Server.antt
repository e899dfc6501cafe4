-- ===== src/Server.antt =====
-- facilitator/cmd/main.go: the facilitator's HTTP handlers, its table of chains, and the rounds of
-- the collector. The server loop and the log are not modelled.
pub mod Laws
pub mod Main
use Prim.Native.String.{◌++◌}
use cosmos_pay.Prelude.{
  ℕ, zero, suc, String, Bool, true, false, not, ◌==◌, Option, none, some, List, [], ◌∷◌,
  if◌then◌else◌,
}
use cosmos_pay.Prelude.Text.{codes}
use cosmos_pay.Clock.{Time}
use cosmos_pay.Errors.{Error, error_text, error_code, Result, ok, err}
use cosmos_pay.Types.{VerifyRequest, VerifyResponse, SettleRequest, SettleResponse}
use cosmos_pay.Types.Codes.{scheme_id}
use cosmos_pay.Types.Tags.{settle_response_json, verify_response_json}
use cosmos_pay.Encoding.Json.{Json, null, str, arr, obj, items, members, print}
use cosmos_pay.Encoding.Utf8.{utf8}
use cosmos_pay.Nonces.{NonceStore}
use cosmos_pay.Nonces.Memory.{MemoryNonceStore, gc}
use cosmos_pay.Chain.{ChainClient}
use cosmos_pay.Adr036.{SignLib, Bytes}
use cosmos_pay.Verify.{Verifier, verify}
use cosmos_pay.Settle.{Outcome, responded, panicked, settle}
use cosmos_pay.Http.{
  Request, ResponseWriter, with_header, write_status, status_ok, status_bad_request,
  status_method_not_allowed,
}

-- the table that `main` builds for its one chain client
abbrev pub chains_of : ChainClient → List (String × ChainClient)
chains_of client = ("cosmos:" ++ client.chain_id, client) ∷ []

-- writes after the status; the first write sends 200 if no status was written
abbrev pub write_body : Bytes → ResponseWriter → ResponseWriter
write_body bytes w = record (write_status status_ok w) { body = bytes }

abbrev pub with_line_break : Bytes → Bytes
with_line_break [] = 10 ∷ []
with_line_break (b ∷ bytes) = b ∷ with_line_break bytes

-- writeJSON: an encoder ends the value with a line break
unfoldable pub write_json : ResponseWriter → ℕ → Json → ResponseWriter
write_json w status body =
    write_body (with_line_break (print body))
      (write_status status (with_header "Content-Type" "application/json" w))

-- http.Error
unfoldable pub http_error : ResponseWriter → String → ℕ → ResponseWriter
http_error w text code = write_body (with_line_break (utf8 (codes text))) (
    write_status code (
      with_header "X-Content-Type-Options" "nosniff"
        (with_header "Content-Type" "text/plain; charset=utf-8" w)))

abbrev pub bad_verify : String → VerifyResponse
bad_verify reason = record { is_valid = false; invalid_reason = reason; payer = "" }

abbrev pub valid_payer : String → VerifyResponse
valid_payer payer = record { is_valid = true; invalid_reason = ""; payer = payer }

abbrev pub bad_settle : SettleResponse
bad_settle = record {
  success = false;
  error_reason = "bad_request";
  transaction = "";
  network = "";
  payer = "";
}

-- the response of /verify to a request that was decoded
abbrev pub verify_response : Result String → VerifyResponse
verify_response (ok payer) = valid_payer payer
verify_response (err e) = bad_verify (error_code e)

-- `decode` stands for the JSON decoder on the body of a request
module _ (lib : SignLib) (N : NonceStore) (decode : Bytes → Result VerifyRequest) where
  unfoldable pub verify_handler : Verifier → ResponseWriter → Request → N.State → ResponseWriter
  unfolding write_json http_error
  verify_handler v w r s =
      if not (r.method == "POST")
      then http_error w "POST only" status_method_not_allowed
      else elim (decode r.body) [
        | err e ↦
            write_json w status_bad_request
              (verify_response_json (bad_verify ("bad request: " ++ error_text e)))
        | ok req ↦
            write_json w status_ok (verify_response_json (verify_response (verify lib N v req s)))
      ]

  -- A panic leaves the writer as it was; net/http ends the connection.
  abbrev settled : Outcome N.State → ResponseWriter → ResponseWriter × Outcome N.State
  settled (responded response s sent) w =
      (write_json w status_ok (settle_response_json response), responded response s sent)
  settled (panicked s) w = (w, panicked s)

  -- the writer, and what the settlement did if one was made
  unfoldable pub settle_handler :
      Verifier → ResponseWriter → Request → N.State → ResponseWriter × Option (Outcome N.State)
  unfolding write_json http_error
  settle_handler v w r s =
      if not (r.method == "POST")
      then (http_error w "POST only" status_method_not_allowed, none)
      else elim (decode r.body) [
        | err e ↦ (write_json w status_bad_request (settle_response_json bad_settle), none)
        | ok req ↦ let (w', outcome) = settled (settle lib N v req s) w in (w', some outcome)
      ]

abbrev kind_json : String → Json
kind_json network = obj (members (("scheme", str scheme_id) ∷ ("network", str network) ∷ []))

abbrev kinds_of : List (String × ChainClient) → List Json
kinds_of [] = []
kinds_of ((network, client) ∷ chains) = kind_json network ∷ kinds_of chains

-- a slice that nothing was appended to is nil, and is written as null
abbrev array_or_null : List Json → Json
array_or_null [] = null
array_or_null xs = arr (items xs)

-- supportedHandler; the order of the kinds is that of the table
unfoldable pub supported_handler : List (String × ChainClient) → ResponseWriter → ResponseWriter
unfolding write_json
supported_handler chains w =
    write_json w status_ok (obj (members (("kinds", array_or_null (kinds_of chains)) ∷ [])))

-- the rounds of the collector, at the instants of the ticker
unfoldable pub collect : List Time → MemoryNonceStore → MemoryNonceStore
unfolding gc
collect [] m = m
collect (now ∷ ticks) m = collect ticks (gc now m).1

-- getenv(k, def), over an environment that gives the empty text for a variable that is not set
unfoldable pub getenv : (String → String) → String → String → String
getenv env k default = if env k == "" then default else env k
