-- ===== src/Types.antt =====
-- facilitator/types.go: the wire types of the scheme. A `uint64` is a number below 2 ^ 64 and a
-- `uint8` one below 2 ^ 8; the version, an `int`, is its bit pattern. The free-form map of the output
-- schema is a list in the order of its keys; nothing in the program reads it.
pub mod Codes
pub mod Tags
pub mod Decode
use cosmos_pay.Prelude.{ℕ, String, Bool, List}
use cosmos_pay.Encoding.Json.{Json}

pub record RequirementsExtra : Type 0 where
  pub facilitator : String
  pub chain_id : String
  pub decimals : ℕ
  pub symbol : String

pub record PaymentRequirements : Type 0 where
  pub scheme : String
  pub network : String
  pub max_amount_required : String
  pub asset : String
  pub pay_to : String
  pub resource : String
  pub description : String
  pub mime_type : String
  pub max_timeout_seconds : ℕ
  pub output_schema : List (String × Json)
  pub extra : RequirementsExtra

pub record Authorization : Type 0 where
  pub from : String
  pub to : String
  pub denom : String
  pub amount : String
  pub nonce : String
  pub valid_after : ℕ
  pub valid_before : ℕ
  pub resource : String
  pub chain_id : String

pub record CosmosPayload : Type 0 where
  pub from : String
  pub public_key : String
  pub signature : String
  pub authorization : Authorization

pub record PaymentPayload : Type 0 where
  pub x402_version : ℕ
  pub scheme : String
  pub network : String
  pub payload : CosmosPayload

pub record VerifyRequest : Type 0 where
  pub x402_version : ℕ
  pub payment_payload : PaymentPayload
  pub payment_requirements : PaymentRequirements

pub record VerifyResponse : Type 0 where
  pub is_valid : Bool
  pub invalid_reason : String
  pub payer : String

-- type SettleRequest = VerifyRequest
abbrev pub SettleRequest : Type 0
SettleRequest = VerifyRequest

pub record SettleResponse : Type 0 where
  pub success : Bool
  pub error_reason : String
  pub transaction : String
  pub network : String
  pub payer : String
