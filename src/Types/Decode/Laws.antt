-- ===== src/Types/Decode/Laws.antt =====
-- The wire types read back as they were written, where their integers have the width of their types.
use cosmos_pay.Prelude.{◌<◌, String, ◌≡◌, refl, List, [], ◌∷◌, ◌++◌}
use cosmos_pay.Prelude.Words.{word}
use cosmos_pay.Errors.{Result, ok}
use cosmos_pay.Types.{
  RequirementsExtra, PaymentRequirements, Authorization, CosmosPayload, PaymentPayload,
  VerifyRequest, SettleResponse,
}
use cosmos_pay.Types.Tags.{
  extra_json, requirements_json, authorization_json, cosmos_payload_json, payload_json,
  request_json, settle_response_json, text_unless_empty, schema_unless_empty,
}
use cosmos_pay.Encoding.Json.{Json, num, print}
use cosmos_pay.Encoding.Json.Value.{Fields}
use cosmos_pay.Encoding.Json.Parse.Laws.{
  value_of, unmarshal-print, decode_first-print, decode_first-print_alone,
}
use cosmos_pay.Encoding.Json.Struct.{same_key, read_string, read_bool, read_struct}
use cosmos_pay.Types.Decode.{
  set_extra, set_authorization, set_cosmos_payload, set_payload, set_settle_response,
  set_requirements, set_request, unmarshal_payload, decode_settle_response, unmarshal_requirements,
  decode_request,
}
use cosmos_pay.Types.Decode.Zero.{
  zero_extra, zero_requirements, zero_authorization, zero_cosmos_payload, zero_payload,
  zero_request, zero_settle_response,
}
use cosmos_pay.Types.Decode.Members.{
  read_uint-num, read_int-int_json, put_text, put_last_text, put_num,
}

-- The integers have the width of their types.
abbrev pub TimesFit : Authorization → Type 0
TimesFit a = (a.valid_after < word) × (a.valid_before < word)

abbrev pub PayloadFits : PaymentPayload → Type 0
PayloadFits p = (p.x402_version < word) × TimesFit p.payload.authorization

-- Also, the free-form map is empty.
abbrev pub RequirementsFit : PaymentRequirements → Type 0
RequirementsFit r =
    (r.max_timeout_seconds < word) × (r.extra.decimals < 256) × (r.output_schema ≡ [])

abbrev pub RequestFits : VerifyRequest → Type 0
RequestFits r =
    (r.x402_version < word) × PayloadFits r.payment_payload × RequirementsFit r.payment_requirements

authorization_back :
    (a : Authorization)
    → TimesFit a
    → read_struct set_authorization (value_of (authorization_json a)) zero_authorization ≡ ok a
unfolding set_authorization same_key read_string read_struct value_of
authorization_back a (after, before) =
    rw (read_uint-num word a.valid_after 0 after, read_uint-num word a.valid_before 0 before) refl

extra_back :
    (e : RequirementsExtra)
    → e.decimals < 256
    → read_struct set_extra (value_of (extra_json e)) zero_extra ≡ ok e
unfolding set_extra same_key read_string read_struct value_of
extra_back e h =
    put_num set_extra "decimals" e.decimals _
      (λ n. record {
        facilitator = e.facilitator;
        chain_id = e.chain_id;
        decimals = n;
        symbol = "";
      })
      e (rw (read_uint-num 256 e.decimals 0 h) refl)
      (put_last_text set_extra "symbol" e.symbol (λ t. record e { symbol = t }) refl)

pub requirements_back :
    (free : Fields → List (String × Json) → Result (List (String × Json))) (r : PaymentRequirements)
    → RequirementsFit r
    → read_struct (set_requirements free) (value_of (requirements_json r)) zero_requirements ≡ ok r
unfolding set_requirements same_key read_string read_struct value_of
requirements_back free r (timeout, decimals, schema) =
    put_text (set_requirements free) "description" r.description
      (text_unless_empty "mimeType" r.mime_type
        ++ ("maxTimeoutSeconds", num r.max_timeout_seconds)
          ∷ (schema_unless_empty r.output_schema ++ ("extra", extra_json r.extra) ∷ []))
      (λ t. record zero_requirements {
        scheme = r.scheme;
        network = r.network;
        max_amount_required = r.max_amount_required;
        asset = r.asset;
        pay_to = r.pay_to;
        resource = r.resource;
        description = t;
      })
      r refl
      (put_text (set_requirements free) "mimeType" r.mime_type
        (("maxTimeoutSeconds", num r.max_timeout_seconds)
          ∷ (schema_unless_empty r.output_schema ++ ("extra", extra_json r.extra) ∷ []))
        (λ t. record r {
          mime_type = t;
          max_timeout_seconds = 0;
          output_schema = [];
          extra = zero_extra;
        })
        r refl
        (rw
          (read_uint-num word r.max_timeout_seconds 0 timeout, schema, extra_back r.extra decimals)
          refl))

cosmos_payload_back :
    (p : CosmosPayload)
    → TimesFit p.authorization
    → read_struct set_cosmos_payload (value_of (cosmos_payload_json p)) zero_cosmos_payload ≡ ok p
unfolding set_cosmos_payload same_key read_string read_struct value_of
cosmos_payload_back p h = rw (authorization_back p.authorization h) refl

pub payload_back :
    (p : PaymentPayload)
    → PayloadFits p
    → read_struct set_payload (value_of (payload_json p)) zero_payload ≡ ok p
unfolding set_payload same_key read_string read_struct value_of
payload_back p (version, times) =
    rw (read_int-int_json p.x402_version 0 version, cosmos_payload_back p.payload times) refl

request_back :
    (free : Fields → List (String × Json) → Result (List (String × Json))) (r : VerifyRequest)
    → RequestFits r
    → read_struct (set_request free) (value_of (request_json r)) zero_request ≡ ok r
unfolding set_request same_key read_struct value_of
request_back free r (version, payload, requirements) =
    rw
      (
        read_int-int_json r.x402_version 0 version,
        payload_back r.payment_payload payload,
        requirements_back free r.payment_requirements requirements,
      )
      refl

settle_response_back :
    (r : SettleResponse)
    → read_struct set_settle_response (value_of (settle_response_json r)) zero_settle_response
      ≡ ok r
unfolding set_settle_response same_key read_string read_bool read_struct value_of
settle_response_back r =
    put_text set_settle_response "errorReason" r.error_reason
      (text_unless_empty "transaction" r.transaction
        ++ (text_unless_empty "network" r.network ++ text_unless_empty "payer" r.payer))
      (λ t. record zero_settle_response { success = r.success; error_reason = t }) r refl
      (put_text set_settle_response "transaction" r.transaction
        (text_unless_empty "network" r.network ++ text_unless_empty "payer" r.payer)
        (λ t. record r { transaction = t; network = ""; payer = "" }) r refl
        (put_text set_settle_response "network" r.network (text_unless_empty "payer" r.payer)
          (λ t. record r { network = t; payer = "" }) r refl
          (put_last_text set_settle_response "payer" r.payer (λ t. record r { payer = t }) refl)))

-- A payload whose integers have the width of their types is decoded as it was encoded.
pub unmarshal_payload-payload_json :
    (p : PaymentPayload) → PayloadFits p → unmarshal_payload (print (payload_json p)) ≡ ok p
unfolding unmarshal_payload
unmarshal_payload-payload_json p h = rw (unmarshal-print (payload_json p), payload_back p h) refl

-- The middleware decodes every settle response, from the JSON and the line break that the
-- facilitator writes, as it was encoded.
pub decode_settle_response-settle_response_json :
    (r : SettleResponse) → decode_settle_response (print (settle_response_json r) ++ 10 ∷ []) ≡ ok r
unfolding decode_settle_response
decode_settle_response-settle_response_json r =
    rw (decode_first-print (settle_response_json r) (10 ∷ []) refl, settle_response_back r) refl

module _ (free : Fields → List (String × Json) → Result (List (String × Json))) where
  -- Requirements whose integers have the width of their types are decoded as they were encoded, where
  -- the output schema is empty.
  pub unmarshal_requirements-requirements_json :
      (r : PaymentRequirements)
      → RequirementsFit r
      → unmarshal_requirements free (print (requirements_json r)) ≡ ok r
  unfolding unmarshal_requirements
  unmarshal_requirements-requirements_json r h =
      rw (unmarshal-print (requirements_json r), requirements_back free r h) refl

  -- A request whose integers have the width of their types and whose output schema is empty
  -- is decoded by the facilitator from its JSON as it was encoded.
  pub decode_request-request_json :
      (r : VerifyRequest) → RequestFits r → decode_request free (print (request_json r)) ≡ ok r
  unfolding decode_request
  decode_request-request_json r h =
      rw (decode_first-print_alone (request_json r), request_back free r h) refl
