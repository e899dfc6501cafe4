-- ===== src/Types/Decode/Zero.antt =====
-- The zero values of the wire types, which the program decodes into.
use cosmos_pay.Prelude.{false, []}
use cosmos_pay.Types.{
  RequirementsExtra, PaymentRequirements, Authorization, CosmosPayload, PaymentPayload,
  VerifyRequest, SettleResponse,
}

abbrev pub zero_extra : RequirementsExtra
zero_extra = record { facilitator = ""; chain_id = ""; decimals = 0; symbol = "" }

abbrev pub zero_requirements : PaymentRequirements
zero_requirements = record {
  scheme = "";
  network = "";
  max_amount_required = "";
  asset = "";
  pay_to = "";
  resource = "";
  description = "";
  mime_type = "";
  max_timeout_seconds = 0;
  output_schema = [];
  extra = zero_extra;
}

abbrev pub zero_authorization : Authorization
zero_authorization = record {
  from = "";
  to = "";
  denom = "";
  amount = "";
  nonce = "";
  valid_after = 0;
  valid_before = 0;
  resource = "";
  chain_id = "";
}

abbrev pub zero_cosmos_payload : CosmosPayload
zero_cosmos_payload = record {
  from = "";
  public_key = "";
  signature = "";
  authorization = zero_authorization;
}

abbrev pub zero_payload : PaymentPayload
zero_payload = record { x402_version = 0; scheme = ""; network = ""; payload = zero_cosmos_payload }

abbrev pub zero_request : VerifyRequest
zero_request = record {
  x402_version = 0;
  payment_payload = zero_payload;
  payment_requirements = zero_requirements;
}

abbrev pub zero_settle_response : SettleResponse
zero_settle_response = record {
  success = false;
  error_reason = "";
  transaction = "";
  network = "";
  payer = "";
}
