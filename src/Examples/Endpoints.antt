-- ===== src/Examples/Endpoints.antt =====
-- The theorems on the middleware, the client and the facilitator's handlers, at one request.
use cosmos_pay.Prelude.{String, ◌==◌, if◌then◌else◌, ◌≡◌, ◌↔◌, refl, true, false, some, [], ◌∷◌}
use cosmos_pay.Adr036.{Bytes}
use cosmos_pay.Errors.{Result, ok, err, plain}
use cosmos_pay.Types.{PaymentPayload, SettleResponse}
use cosmos_pay.Types.Codes.{err_nonce_already_used}
use cosmos_pay.Settle.{success, failure}
use cosmos_pay.Http.{
  Request, ResponseWriter, new_writer, get_header, status_ok, status_payment_required,
}
use cosmos_pay.Middleware.{
  Config, HttpLib, build_requirements, requirements_header, decode_payload, call_settle,
  with_defaults, paid,
}
use cosmos_pay.Middleware.Laws.{
  IsPaidFor, IsSettledFor, served_iff, served_sound, unserved_payment_required, paid_by_post,
}
use cosmos_pay.Examples.Scenario.{payload_of, authorization_of}
use cosmos_pay.Examples.Runs.{running}

abbrev pub shop_config : Config
shop_config = record {
  pay_to = "noble1shop";
  asset = "uusdc";
  amount = "10000";
  network = "cosmos:grand-1";
  facilitator_url = "http://facilitator";
  facilitator_addr = "noble1fac";
  max_timeout_seconds = 0;
  description = "";
  mime_type = "";
  decimals = 6;
  symbol = "USDC";
}

abbrev pub premium : String → Request
premium signature = record {
  method = "GET";
  tls = true;
  host = "shop";
  path = "/premium";
  header = ("PAYMENT-SIGNATURE", signature) ∷ [];
  body = [];
}

abbrev pub payload : PaymentPayload
payload = payload_of (authorization_of "10000" "0x01")

-- a facilitator that gives this answer to every payment
abbrev pub facilitator : SettleResponse → HttpLib
facilitator response = record {
  unmarshal_payload = λ b. ok payload;
  decode_settle_response = λ b. ok response;
  post = λ url body. ok [];
}

abbrev pub paid_response : SettleResponse
paid_response = success "ABCD" "cosmos:grand-1" "noble1payer"

abbrev refused_response : SettleResponse
refused_response = failure err_nonce_already_used "cosmos:grand-1" ""

abbrev pub content : ResponseWriter → Request → ResponseWriter
content w r = record w { status = some status_ok }

served_run :
    (paid (facilitator paid_response) content shop_config new_writer (premium "AAAA")).served ≡ true
unfolding running paid decode_payload call_settle get_header
served_run = refl

served_iff_example :
    ((paid (facilitator paid_response) content shop_config new_writer (premium "AAAA")).served
      ≡ true)
    ↔ ((p : PaymentPayload) × IsSettledFor
          (facilitator paid_response)
          content
          shop_config
          new_writer
          (premium "AAAA")
          p)
served_iff_example =
    served_iff (facilitator paid_response) content shop_config new_writer (premium "AAAA")

paid_for : IsPaidFor (facilitator paid_response) content shop_config new_writer (premium "AAAA")
paid_for =
    served_sound (facilitator paid_response) content shop_config new_writer (premium "AAAA")
      served_run

refused_run :
    (paid (facilitator refused_response) content shop_config new_writer (premium "AAAA")).served
    ≡ false
unfolding running paid decode_payload call_settle get_header
refused_run = refl

unserved_payment_required_example :
    ((paid
        (facilitator refused_response)
        content
        shop_config
        new_writer
        (premium "AAAA")).writer.status
      ≡ some status_payment_required)
    × (get_header "PAYMENT-REQUIRED"
          (paid
            (facilitator refused_response)
            content
            shop_config
            new_writer
            (premium "AAAA")).writer.header
        ≡ requirements_header (build_requirements (with_defaults shop_config) (premium "AAAA")))
unserved_payment_required_example =
    unserved_payment_required (facilitator refused_response) content shop_config new_writer
      (premium "AAAA") refl refused_run

-- the same facilitator behind a client that reaches its settle URL alone
abbrev settle_only : String → Bytes → Result Bytes
settle_only url body =
    if url == "http://facilitator/settle" then ok [] else err (plain "connection refused")

paid_by_post_example :
    paid
      (record (facilitator paid_response) { post = settle_only })
      content
      shop_config
      new_writer
      (premium "AAAA")
    ≡ paid (facilitator paid_response) content shop_config new_writer (premium "AAAA")
paid_by_post_example =
    paid_by_post (facilitator paid_response) content shop_config new_writer (premium "AAAA")
      settle_only (λ p scheme. refl)
