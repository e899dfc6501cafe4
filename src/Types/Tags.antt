-- ===== src/Types/Tags.antt =====
-- The JSON tags of facilitator/types.go: the objects that json.Marshal writes for the wire types,
-- members in the order of the struct, `omitempty` members left out where they are empty.
use cosmos_pay.Prelude.{ℕ, ◌-◌, String, ◌==◌, List, [], ◌∷◌, ◌++◌, eqb, ltb, if◌then◌else◌}
use cosmos_pay.Prelude.Words.{word, half_word}
use cosmos_pay.Encoding.Json.{Json, str, num, neg, bool, obj, members}
use cosmos_pay.Types.{
  RequirementsExtra, PaymentRequirements, Authorization, CosmosPayload, PaymentPayload,
  VerifyRequest, VerifyResponse, SettleResponse,
}

-- a member with `omitempty`
abbrev pub text_unless_empty : String → String → List (String × Json)
text_unless_empty k v = if v == "" then [] else (k, str v) ∷ []

abbrev pub num_unless_zero : String → ℕ → List (String × Json)
num_unless_zero k n = if eqb n 0 then [] else (k, num n) ∷ []

-- an `int`, from its bit pattern
abbrev pub int_json : ℕ → Json
int_json n = if ltb n half_word then num n else neg (word - n)

abbrev pub schema_unless_empty : List (String × Json) → List (String × Json)
schema_unless_empty [] = []
schema_unless_empty ms = ("outputSchema", obj (members ms)) ∷ []

abbrev pub extra_json : RequirementsExtra → Json
extra_json e = obj (
    members (
      ("facilitator", str e.facilitator) ∷ ("chainId", str e.chain_id) ∷ []
      ++ (num_unless_zero "decimals" e.decimals ++ text_unless_empty "symbol" e.symbol)))

abbrev pub requirements_json : PaymentRequirements → Json
requirements_json r = obj (
    members (
      ("scheme", str r.scheme)
        ∷ ("network", str r.network)
        ∷ ("maxAmountRequired", str r.max_amount_required)
        ∷ ("asset", str r.asset)
        ∷ ("payTo", str r.pay_to)
        ∷ ("resource", str r.resource)
        ∷ []
      ++ (text_unless_empty "description" r.description
          ++ (text_unless_empty "mimeType" r.mime_type
              ++ ("maxTimeoutSeconds", num r.max_timeout_seconds)
                ∷ (schema_unless_empty r.output_schema ++ ("extra", extra_json r.extra) ∷ [])))))

abbrev pub authorization_json : Authorization → Json
authorization_json a = obj (
    members (
      ("from", str a.from)
      ∷ ("to", str a.to)
      ∷ ("denom", str a.denom)
      ∷ ("amount", str a.amount)
      ∷ ("nonce", str a.nonce)
      ∷ ("validAfter", num a.valid_after)
      ∷ ("validBefore", num a.valid_before)
      ∷ ("resource", str a.resource)
      ∷ ("chainId", str a.chain_id)
      ∷ []))

abbrev pub cosmos_payload_json : CosmosPayload → Json
cosmos_payload_json p = obj (
    members (
      ("from", str p.from)
      ∷ ("publicKey", str p.public_key)
      ∷ ("signature", str p.signature)
      ∷ ("authorization", authorization_json p.authorization)
      ∷ []))

abbrev pub payload_json : PaymentPayload → Json
payload_json p = obj (
    members (
      ("x402Version", int_json p.x402_version)
      ∷ ("scheme", str p.scheme)
      ∷ ("network", str p.network)
      ∷ ("payload", cosmos_payload_json p.payload)
      ∷ []))

abbrev pub request_json : VerifyRequest → Json
request_json r = obj (
    members (
      ("x402Version", int_json r.x402_version)
      ∷ ("paymentPayload", payload_json r.payment_payload)
      ∷ ("paymentRequirements", requirements_json r.payment_requirements)
      ∷ []))

abbrev pub settle_response_json : SettleResponse → Json
settle_response_json r = obj (
    members (
      ("success", bool r.success) ∷ []
      ++ (text_unless_empty "errorReason" r.error_reason
          ++ (text_unless_empty "transaction" r.transaction
              ++ (text_unless_empty "network" r.network ++ text_unless_empty "payer" r.payer)))))

abbrev pub verify_response_json : VerifyResponse → Json
verify_response_json r = obj (
    members (
      ("isValid", bool r.is_valid) ∷ []
      ++ (text_unless_empty "invalidReason" r.invalid_reason ++ text_unless_empty "payer" r.payer)))
