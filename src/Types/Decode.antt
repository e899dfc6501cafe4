-- ===== src/Types/Decode.antt =====
-- The wire types of facilitator/types.go as encoding/json decodes them: the field that each key sets,
-- over the variable that is decoded into.
pub mod Zero
pub mod Members
pub mod Laws
pub mod Bounds
use cosmos_pay.Prelude.{ℕ, String, false, List, [], if◌then◌else◌}
use cosmos_pay.Prelude.Words.{word}
use cosmos_pay.Errors.{Result, ok, ◌>>=◌}
use cosmos_pay.Types.{
  RequirementsExtra, PaymentRequirements, Authorization, CosmosPayload, PaymentPayload,
  VerifyRequest, SettleResponse,
}
use cosmos_pay.Types.Decode.Zero.{
  zero_payload, zero_request, zero_requirements, zero_settle_response,
}
use cosmos_pay.Encoding.Json.{Json}
use cosmos_pay.Encoding.Json.Value.{Value, Fields, null, object}
use cosmos_pay.Encoding.Json.Parse.{unmarshal, decode_first}
use cosmos_pay.Encoding.Json.Struct.{
  type_error, same_key, read_string, read_bool, read_uint, read_int, read_struct,
}

abbrev pub Bytes : Type 0
Bytes = List ℕ

unfoldable pub set_extra : String → Value → RequirementsExtra → Result RequirementsExtra
set_extra k v e =
    if same_key k "facilitator"
    then (do x ← read_string v e.facilitator; ok (record e { facilitator = x }))
    else if same_key k "chainId"
    then (do x ← read_string v e.chain_id; ok (record e { chain_id = x }))
    else if same_key k "decimals"
    then (do x ← read_uint 256 v e.decimals; ok (record e { decimals = x }))
    else if same_key k "symbol"
    then (do x ← read_string v e.symbol; ok (record e { symbol = x }))
    else ok e

unfoldable pub set_authorization : String → Value → Authorization → Result Authorization
set_authorization k v a =
    if same_key k "from"
    then (do x ← read_string v a.from; ok (record a { from = x }))
    else if same_key k "to"
    then (do x ← read_string v a.to; ok (record a { to = x }))
    else if same_key k "denom"
    then (do x ← read_string v a.denom; ok (record a { denom = x }))
    else if same_key k "amount"
    then (do x ← read_string v a.amount; ok (record a { amount = x }))
    else if same_key k "nonce"
    then (do x ← read_string v a.nonce; ok (record a { nonce = x }))
    else if same_key k "validAfter"
    then (do x ← read_uint word v a.valid_after; ok (record a { valid_after = x }))
    else if same_key k "validBefore"
    then (do x ← read_uint word v a.valid_before; ok (record a { valid_before = x }))
    else if same_key k "resource"
    then (do x ← read_string v a.resource; ok (record a { resource = x }))
    else if same_key k "chainId"
    then (do x ← read_string v a.chain_id; ok (record a { chain_id = x }))
    else ok a

unfoldable pub set_cosmos_payload : String → Value → CosmosPayload → Result CosmosPayload
set_cosmos_payload k v p =
    if same_key k "from"
    then (do x ← read_string v p.from; ok (record p { from = x }))
    else if same_key k "publicKey"
    then (do x ← read_string v p.public_key; ok (record p { public_key = x }))
    else if same_key k "signature"
    then (do x ← read_string v p.signature; ok (record p { signature = x }))
    else if same_key k "authorization"
    then (do
      x ← read_struct set_authorization v p.authorization
      ok (record p { authorization = x }))
    else ok p

unfoldable pub set_payload : String → Value → PaymentPayload → Result PaymentPayload
set_payload k v p =
    if same_key k "x402Version"
    then (do x ← read_int v p.x402_version; ok (record p { x402_version = x }))
    else if same_key k "scheme"
    then (do x ← read_string v p.scheme; ok (record p { scheme = x }))
    else if same_key k "network"
    then (do x ← read_string v p.network; ok (record p { network = x }))
    else if same_key k "payload"
    then (do x ← read_struct set_cosmos_payload v p.payload; ok (record p { payload = x }))
    else ok p

unfoldable pub set_settle_response : String → Value → SettleResponse → Result SettleResponse
set_settle_response k v r =
    if same_key k "success"
    then (do x ← read_bool v r.success; ok (record r { success = x }))
    else if same_key k "errorReason"
    then (do x ← read_string v r.error_reason; ok (record r { error_reason = x }))
    else if same_key k "transaction"
    then (do x ← read_string v r.transaction; ok (record r { transaction = x }))
    else if same_key k "network"
    then (do x ← read_string v r.network; ok (record r { network = x }))
    else if same_key k "payer"
    then (do x ← read_string v r.payer; ok (record r { payer = x }))
    else ok r

-- The values of the free-form map of the output schema are floats and interfaces; `free` stands for
-- what encoding/json puts into it.
module _ (free : Fields → List (String × Json) → Result (List (String × Json))) where
  abbrev read_schema : Value → List (String × Json) → Result (List (String × Json))
  read_schema null old = ok []
  read_schema (object fs) old = free fs old
  read_schema _ old = type_error

  unfoldable pub set_requirements :
      String → Value → PaymentRequirements → Result PaymentRequirements
  set_requirements k v r =
      if same_key k "scheme"
      then (do x ← read_string v r.scheme; ok (record r { scheme = x }))
      else if same_key k "network"
      then (do x ← read_string v r.network; ok (record r { network = x }))
      else if same_key k "maxAmountRequired"
      then (do x ← read_string v r.max_amount_required; ok (record r { max_amount_required = x }))
      else if same_key k "asset"
      then (do x ← read_string v r.asset; ok (record r { asset = x }))
      else if same_key k "payTo"
      then (do x ← read_string v r.pay_to; ok (record r { pay_to = x }))
      else if same_key k "resource"
      then (do x ← read_string v r.resource; ok (record r { resource = x }))
      else if same_key k "description"
      then (do x ← read_string v r.description; ok (record r { description = x }))
      else if same_key k "mimeType"
      then (do x ← read_string v r.mime_type; ok (record r { mime_type = x }))
      else if same_key k "maxTimeoutSeconds"
      then (do
        x ← read_uint word v r.max_timeout_seconds
        ok (record r { max_timeout_seconds = x }))
      else if same_key k "outputSchema"
      then (do x ← read_schema v r.output_schema; ok (record r { output_schema = x }))
      else if same_key k "extra"
      then (do x ← read_struct set_extra v r.extra; ok (record r { extra = x }))
      else ok r

  unfoldable pub set_request : String → Value → VerifyRequest → Result VerifyRequest
  set_request k v r =
      if same_key k "x402Version"
      then (do x ← read_int v r.x402_version; ok (record r { x402_version = x }))
      else if same_key k "paymentPayload"
      then (do
        x ← read_struct set_payload v r.payment_payload
        ok (record r { payment_payload = x }))
      else if same_key k "paymentRequirements"
      then (do
        x ← read_struct set_requirements v r.payment_requirements
        ok (record r { payment_requirements = x }))
      else ok r

-- json.Unmarshal of decodePayload in middleware/middleware.go
unfoldable pub unmarshal_payload : Bytes → Result PaymentPayload
unmarshal_payload s = do v ← unmarshal s; read_struct set_payload v zero_payload

-- json.NewDecoder(httpResp.Body).Decode of callSettle
unfoldable pub decode_settle_response : Bytes → Result SettleResponse
decode_settle_response s = do
  v ← decode_first s
  read_struct set_settle_response v zero_settle_response

module _ (free : Fields → List (String × Json) → Result (List (String × Json))) where
  -- json.Unmarshal of decodeHeader in examples/client/main.go
  unfoldable pub unmarshal_requirements : Bytes → Result PaymentRequirements
  unmarshal_requirements s = do
    v ← unmarshal s
    read_struct (set_requirements free) v zero_requirements

  -- json.NewDecoder(r.Body).Decode of facilitator/cmd/main.go
  unfoldable pub decode_request : Bytes → Result VerifyRequest
  decode_request s = do v ← decode_first s; read_struct (set_request free) v zero_request
