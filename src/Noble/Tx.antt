-- ===== src/Noble/Tx.antt =====
-- Transactions as facilitator/chain_noble.go and tools/grant/main.go build them: the SDK's messages
-- and the builder, whose setters fill its fields.
use cosmos_pay.Prelude.{ℕ, String, Option, List}
use cosmos_pay.Clock.{Time}
use cosmos_pay.Adr036.{Bytes}
use cosmos_pay.Noble.Query.{Coin}

-- banktypes.MsgSend
pub record MsgSend : Type 0 where
  pub from_address : String
  pub to_address : String
  pub amount : List Coin

-- authz.MsgExec; the grantee as the account's bytes
pub record MsgExec : Type 0 where
  pub grantee : Bytes
  pub msgs : List MsgSend

-- signingtypes.SignatureV2, single signer in direct mode; `none` is the nil signature
pub record Signature : Type 0 where
  pub pub_key : Bytes
  pub signature : Option Bytes
  pub sequence : ℕ

-- authz.MsgGrant of a SendAuthorization with no allow list; granter and grantee as bytes
pub record MsgGrant : Type 0 where
  pub granter : Bytes
  pub grantee : Bytes
  pub spend_limit : List Coin
  pub expiration : Time

-- the messages that the program puts into a transaction
pub data Msg : Type 0 where
  exec : MsgExec → Msg
  grant : MsgGrant → Msg

-- the transaction in a builder; a fee payer is set where the source sets one
pub record Tx : Type 0 where
  pub msgs : List Msg
  pub gas_limit : ℕ
  pub fee_amount : List Coin
  pub fee_payer : Option Bytes
  pub memo : String
  pub signatures : List Signature

pub record SignerData : Type 0 where
  pub chain_id : String
  pub account_number : ℕ
  pub sequence : ℕ
  pub pub_key : Bytes
  pub address : String

-- coretypes.ResultBroadcastTx
pub record BroadcastResult : Type 0 where
  pub code : ℕ
  pub log : String
  pub hash : Bytes
