-- ===== src/Examples/Wire.antt =====
-- The wire types as JSON, at the payment of the scenario.
use cosmos_pay.Prelude.{◌≡◌, refl, [], ◌∷◌, ◌++◌, arith}
use cosmos_pay.Errors.{ok}
use cosmos_pay.Types.{VerifyRequest}
use cosmos_pay.Types.Tags.{request_json, settle_response_json}
use cosmos_pay.Types.Decode.{decode_request, decode_settle_response}
use cosmos_pay.Types.Decode.Laws.{
  RequestFits, decode_request-request_json, decode_settle_response-settle_response_json,
}
use cosmos_pay.Encoding.Json.{print}
use cosmos_pay.Middleware.{build_requirements, settle_request, with_defaults}
use cosmos_pay.Examples.Endpoints.{shop_config, premium, payload, paid_response}
use cosmos_pay.Examples.Scenario.{no_free}

abbrev sent : VerifyRequest
sent = settle_request payload (build_requirements (with_defaults shop_config) (premium "AAAA"))

sent_fits : RequestFits sent
unfolding build_requirements
sent_fits =
    (ground arith, (ground arith, (ground arith, ground arith)), (ground arith, ground arith, refl))

decode_request-request_json_example : decode_request no_free (print (request_json sent)) ≡ ok sent
decode_request-request_json_example = decode_request-request_json no_free sent sent_fits

decode_settle_response-settle_response_json_example :
    decode_settle_response (print (settle_response_json paid_response) ++ 10 ∷ [])
    ≡ ok paid_response
decode_settle_response-settle_response_json_example =
    decode_settle_response-settle_response_json paid_response
