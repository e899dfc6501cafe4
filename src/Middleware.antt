-- ===== src/Middleware.antt =====
-- middleware/middleware.go: the handler that asks for a payment, forwards the payment that comes
-- with a request to the facilitator, and calls the inner handler once it is settled.
pub mod Headers
pub mod Laws
use Prim.Native.String.{◌++◌}
use cosmos_pay.Prelude.{
  ℕ, String, Bool, true, false, not, ◌==◌, ◌||◌, Option, none, some, List, [], eqb, if◌then◌else◌,
}
use cosmos_pay.Prelude.Text.{strip_prefix}
use cosmos_pay.Errors.{
  Error, plain, wrapped, error_text, Result, ok, err, ◌>>=◌, ◌>>◌, reject_if, map_error,
}
use cosmos_pay.Types.{PaymentRequirements, PaymentPayload, SettleRequest, SettleResponse}
use cosmos_pay.Types.Codes.{scheme_id, err_invalid_authorization, err_unexpected}
use cosmos_pay.Types.Tags.{requirements_json, request_json, settle_response_json}
use cosmos_pay.Encoding.Json.{print}
use cosmos_pay.Encoding.Base64
use cosmos_pay.Adr036.{Bytes}
use cosmos_pay.Http.{
  Request, get_header, ResponseWriter, with_header, write_status, status_payment_required,
}

-- The HTTP client is the parameter `HttpLib`; its default timeout is not modelled.
pub record Config : Type 0 where
  pub pay_to : String
  pub asset : String
  pub amount : String
  pub network : String
  pub facilitator_url : String
  pub facilitator_addr : String
  pub max_timeout_seconds : ℕ
  pub description : String
  pub mime_type : String
  pub decimals : ℕ
  pub symbol : String

-- What the file calls: `json.Unmarshal` into a payload, `json.Decoder` into a settle response, and
-- the HTTP client's answer to a POST of a body to a URL.
pub record HttpLib : Type 0 where
  pub unmarshal_payload : Bytes → Result PaymentPayload
  pub decode_settle_response : Bytes → Result SettleResponse
  pub post : String → Bytes → Result Bytes

-- The chain id of a network: `len(n) > 7 && n[:7] == "cosmos:"` says that something follows the
-- prefix.
unfoldable pub chain_id_of : String → String
chain_id_of network = elim (strip_prefix "cosmos:" network) [
  | none ↦ network
  | some rest ↦ if rest == "" then network else rest
]

abbrev pub url_scheme : Request → String
url_scheme r =
    if r.tls || get_header "X-Forwarded-Proto" r.header == "https" then "https" else "http"

unfoldable pub build_requirements : Config → Request → PaymentRequirements
unfolding chain_id_of
build_requirements cfg r = record {
  scheme = scheme_id;
  network = cfg.network;
  max_amount_required = cfg.amount;
  asset = cfg.asset;
  pay_to = cfg.pay_to;
  resource = url_scheme r ++ "://" ++ r.host ++ r.path;
  description = cfg.description;
  mime_type = cfg.mime_type;
  max_timeout_seconds = cfg.max_timeout_seconds;
  output_schema = [];
  extra = record {
    facilitator = cfg.facilitator_addr;
    chain_id = chain_id_of cfg.network;
    decimals = cfg.decimals;
    symbol = cfg.symbol;
  };
}

abbrev pub requirements_header : PaymentRequirements → String
requirements_header req = Base64.encode (print (requirements_json req))

abbrev pub response_header : SettleResponse → String
response_header resp = Base64.encode (print (settle_response_json resp))

unfoldable pub write_required : ResponseWriter → PaymentRequirements → ResponseWriter
write_required w req = write_status status_payment_required (
    with_header "Access-Control-Expose-Headers" "PAYMENT-REQUIRED, PAYMENT-RESPONSE"
      (with_header "PAYMENT-REQUIRED" (requirements_header req) w))

-- the response that `writeFailure` reports; its message argument is not used
abbrev pub failure_response : PaymentRequirements → String → SettleResponse
failure_response req code = record {
  success = false;
  error_reason = code;
  transaction = "";
  network = req.network;
  payer = "";
}

unfoldable pub write_failure : ResponseWriter → PaymentRequirements → String → ResponseWriter
write_failure w req code = write_status status_payment_required (
    with_header "Access-Control-Expose-Headers" "PAYMENT-REQUIRED, PAYMENT-RESPONSE" (
      with_header "PAYMENT-RESPONSE" (response_header (failure_response req code))
        (with_header "PAYMENT-REQUIRED" (requirements_header req) w)))

unfoldable pub set_response_header : ResponseWriter → SettleResponse → ResponseWriter
set_response_header w resp =
    with_header "Access-Control-Expose-Headers" "PAYMENT-RESPONSE"
      (with_header "PAYMENT-RESPONSE" (response_header resp) w)

-- What a request did: the writer, and whether the inner handler ran.
pub record Exchange : Type 0 where
  pub writer : ResponseWriter
  pub served : Bool

abbrev pub settle_request : PaymentPayload → PaymentRequirements → SettleRequest
settle_request payload requirements = record {
  x402_version = 2;
  payment_payload = payload;
  payment_requirements = requirements;
}

abbrev pub settle_url : Config → String
settle_url cfg = cfg.facilitator_url ++ "/settle"

-- the defaults that `Paid` fills in
abbrev pub with_defaults : Config → Config
with_defaults cfg =
    if eqb cfg.max_timeout_seconds 0 then record cfg { max_timeout_seconds = 60 } else cfg

module _ (lib : HttpLib) where
  unfoldable pub decode_payload : String → Result PaymentPayload
  decode_payload header = do
    raw ← map_error (λ e. wrapped ("base64: " ++ error_text e) e) (Base64.decode header)
    pp ← map_error (λ e. wrapped ("json: " ++ error_text e) e) (lib.unmarshal_payload raw)
    reject_if (not (pp.scheme == scheme_id)) (plain "scheme mismatch")
    ok pp

  unfoldable pub call_settle : Config → PaymentPayload → PaymentRequirements → Result SettleResponse
  call_settle cfg payload requirements = do
    body ← lib.post (settle_url cfg) (print (request_json (settle_request payload requirements)))
    map_error (λ e. wrapped ("decode settle response: " ++ error_text e) e)
        (lib.decode_settle_response body)

  module _ (next : ResponseWriter → Request → ResponseWriter) where
    -- the last part of the handler, with the facilitator's answer
    abbrev answer :
        PaymentRequirements → Result SettleResponse → ResponseWriter → Request → Exchange
    answer requirements (err e) w r = record {
      writer = write_failure w requirements err_unexpected;
      served = false;
    }
    answer requirements (ok resp) w r =
        if resp.success
        then record { writer = next (set_response_header w resp) r; served = true }
        else record { writer = write_failure w requirements resp.error_reason; served = false }

    abbrev with_payload :
        Config → PaymentRequirements → Result PaymentPayload → ResponseWriter → Request → Exchange
    with_payload cfg requirements (err e) w r = record {
      writer = write_failure w requirements err_invalid_authorization;
      served = false;
    }
    with_payload cfg requirements (ok payload) w r =
        answer requirements (call_settle cfg payload requirements) w r

    -- the handler that Paid(cfg, next) returns
    unfoldable pub paid : Config → ResponseWriter → Request → Exchange
    paid config w r =
        let cfg = with_defaults config in
        let requirements = build_requirements cfg r in
        let sig_header = get_header "PAYMENT-SIGNATURE" r.header in
        if sig_header == ""
        then record { writer = write_required w requirements; served = false }
        else with_payload cfg requirements (decode_payload sig_header) w r
