-- ===== src/Examples/Connected.antt =====
-- The middleware in front of the facilitator, at the payment of the scenario.
use cosmos_pay.Prelude.{◌≡◌, refl, true, some, [], arith, String}
use cosmos_pay.Errors.{Result, ok}
use cosmos_pay.Types.{PaymentPayload, SettleRequest, SettleResponse}
use cosmos_pay.Types.Decode.{decode_request}
use cosmos_pay.Nonces.Memory.{memory_store}
use cosmos_pay.Nonces.Memory.Laws.{memory_contract}
use cosmos_pay.Adr036.{Bytes}
use cosmos_pay.Settle.{settle}
use cosmos_pay.Settle.Laws.{response_of, IsPaid}
use cosmos_pay.Http.{Request, new_writer, get_header}
use cosmos_pay.Middleware.{
  HttpLib, build_requirements, decode_payload, settle_request, with_defaults, paid,
}
use cosmos_pay.Middleware.Laws.{served_complete}
use cosmos_pay.Server.{settle_handler}
use cosmos_pay.Client.{payment_header}
use cosmos_pay.DemoServer.Complete.{object-ne-empty}
use cosmos_pay.Deployment.{post_of, IsConnected}
use cosmos_pay.Deployment.Exchange.{call_settle_completes}
use cosmos_pay.Deployment.Wire.{
  json_http, json-IsConnected, decode_payload-payment_header, served_pays_over_json,
}
use cosmos_pay.Examples.Scenario.{no_free, toy_lib, verifier_at, accepted}
use cosmos_pay.Examples.Endpoints.{shop_config, premium, payload, content, paid_response}
use cosmos_pay.Examples.Runs.{running}

-- a request with the payload in its header
abbrev paying : Request
paying = premium (payment_header payload)

abbrev posted : SettleRequest
posted = settle_request payload (build_requirements (with_defaults shop_config) paying)

-- a client that posts to the settlement endpoint
abbrev posting : String → Bytes → Result Bytes
posting url body =
    ok
      (settle_handler toy_lib memory_store (decode_request no_free)
        (verifier_at 1716700010 accepted) new_writer (post_of body) []).0.body

abbrev connected : HttpLib
connected = json_http posting

posted_run :
    response_of (settle toy_lib memory_store (verifier_at 1716700010 accepted) posted [])
    ≡ some paid_response
unfolding running build_requirements get_header
posted_run = refl

connected-IsConnected :
    IsConnected connected content shop_config new_writer paying toy_lib memory_store memory_contract
      (decode_request no_free)
      (verifier_at 1716700010 accepted)
      []
connected-IsConnected =
    json-IsConnected no_free posting content shop_config new_writer paying toy_lib memory_store
      memory_contract (verifier_at 1716700010 accepted) [] (ground arith, ground arith)
      (λ body. refl)

carried_payload :
    decode_payload connected (get_header "PAYMENT-SIGNATURE" paying.header) ≡ ok payload
unfolding get_header
carried_payload =
    decode_payload-payment_header posting payload (ground arith, (ground arith, ground arith)) refl

served_run : (paid connected content shop_config new_writer paying).served ≡ true
unfolding get_header
served_run = served_complete connected content shop_config new_writer paying (record {
  payload = payload;
  response = paid_response;
  carried = object-ne-empty _;
  decoded = carried_payload;
  answered =
      call_settle_completes toy_lib memory_store memory_contract connected content shop_config
        new_writer paying (decode_request no_free) (verifier_at 1716700010 accepted) []
        connected-IsConnected payload paid_response carried_payload posted_run;
  settled = refl;
})

served_pays_over_json_example :
    (pp : PaymentPayload) × (response : SettleResponse) × (decode_payload connected
        (get_header "PAYMENT-SIGNATURE" paying.header)
      ≡ ok pp)
    × IsPaid toy_lib memory_store memory_contract
        (verifier_at 1716700010 accepted)
        (settle_request pp (build_requirements (with_defaults shop_config) paying))
        []
        response
served_pays_over_json_example =
    served_pays_over_json no_free posting content shop_config new_writer paying toy_lib memory_store
      memory_contract (verifier_at 1716700010 accepted) [] (ground arith, ground arith)
      (λ body. refl) served_run
