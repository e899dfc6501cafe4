-- ===== src/Noble/Broadcast.antt =====
-- BroadcastAuthzSend of facilitator/chain_noble.go. The SDK's transaction builder, signer and
-- codecs are the record `TxLib`.
pub mod Laws
use Prim.Native.String.{◌++◌}
use cosmos_pay.Prelude.{
  ℕ, String, Bool, true, false, not, Option, none, some, List, [], ◌∷◌, eqb, if◌then◌else◌,
}
use cosmos_pay.Errors.{
  Error, plain, wrapped, error_text, Result, ok, err, ◌>>=◌, ◌>>◌, reject_if, map_error, in_step,
}
use cosmos_pay.Adr036.{Bytes, show}
use cosmos_pay.Noble.Query.{Coin, rpc_error}
use cosmos_pay.Noble.Tx.{MsgSend, MsgExec, Msg, exec, Signature, Tx, SignerData, BroadcastResult}

pub record TxLib : Type 0 where
  -- sdk.ParseCoinNormalized
  pub parse_coin : String → Result Coin
  -- sdk.NewCoins of one coin, which drops a zero
  pub new_coins : Coin → List Coin
  -- sdk.AccAddressFromBech32
  pub account_bytes : String → Result Bytes
  -- txBuilder.SetMsgs and SetSignatures, which validate what they are given
  pub set_msgs : List Msg → Result (Unit {0})
  pub set_signatures : List Signature → Result (Unit {0})
  -- authsigning.GetSignBytesAdapter in direct mode
  pub sign_bytes : SignerData → Tx → Result Bytes
  -- the signer: its public key and Sign
  pub pub_key : Bytes
  pub sign : Bytes → Result Bytes
  -- txConfig.TxEncoder()
  pub encode_tx : Tx → Result Bytes
  -- rpcClient.BroadcastTxSync
  pub broadcast_tx_sync : Bytes → Result BroadcastResult
  -- strings.ToUpper(hex.EncodeToString(hash))
  pub hex_upper : Bytes → String
  -- sdk.NewInt64Coin at a denom and an amount
  pub int_coin : String → ℕ → Coin
  -- fmt's %q
  pub quote : String → String
  -- uint64(float64(gasLimit) * gasPrice)
  pub fee_of : ℕ → ℕ

-- the fields of the client that the function reads
pub record Sender : Type 0 where
  pub chain_id : String
  pub denom : String
  pub address : String

abbrev pub gas_limit : ℕ
gas_limit = 250000

module _ (lib : TxLib) (c : Sender) (query_account : String → Result (ℕ × ℕ)) where
  -- the transaction before its signatures
  abbrev pub unsigned_tx : Bytes → MsgSend → Tx
  unsigned_tx grantee inner = record {
    msgs = exec (record { grantee = grantee; msgs = inner ∷ [] }) ∷ [];
    gas_limit = gas_limit;
    fee_amount = lib.new_coins (lib.int_coin c.denom (lib.fee_of gas_limit));
    fee_payer = none;
    memo = "x402-cosmos";
    signatures = [];
  }

  abbrev pub signature_of : Option Bytes → ℕ → List Signature
  signature_of sig sequence =
      record { pub_key = lib.pub_key; signature = sig; sequence = sequence } ∷ []

  abbrev pub signer_data : ℕ → ℕ → SignerData
  signer_data number sequence = record {
    chain_id = c.chain_id;
    account_number = number;
    sequence = sequence;
    pub_key = lib.pub_key;
    address = c.address;
  }

  -- the two passes of the signature: an empty one first, then the one over the sign bytes
  unfoldable pub sign_tx : Tx → ℕ → ℕ → Result Tx
  sign_tx tx number sequence = do
    map_error (in_step "set empty sig") (lib.set_signatures (signature_of none sequence))
    let empty = record tx { signatures = signature_of none sequence }
    bytes ←
        map_error (in_step "get sign bytes") (lib.sign_bytes (signer_data number sequence) empty)
    sig ← map_error (in_step "sign") (lib.sign bytes)
    map_error (in_step "set real sig") (lib.set_signatures (signature_of (some sig) sequence))
    ok (record empty { signatures = signature_of (some sig) sequence })

  -- up to the signed transaction
  unfoldable pub build_tx : String → String → String → String → Result Tx
  unfolding sign_tx
  build_tx from to denom amount = do
    coin ← map_error (in_step "parse coin") (lib.parse_coin (amount ++ denom))
    let inner : MsgSend = record {
      from_address = from;
      to_address = to;
      amount = lib.new_coins coin;
    }
    grantee ← map_error (in_step "parse facilitator addr") (lib.account_bytes c.address)
    (number, sequence) ← map_error (in_step "query account") (query_account c.address)
    map_error (in_step "set msgs") (lib.set_msgs (unsigned_tx grantee inner).msgs)
    sign_tx (unsigned_tx grantee inner) number sequence

  -- up to the answer of the node to the broadcast
  unfoldable pub send_tx : String → String → String → String → Result BroadcastResult
  unfolding build_tx
  send_tx from to denom amount = do
    tx ← build_tx from to denom amount
    bytes ← map_error (in_step "encode tx") (lib.encode_tx tx)
    res ← map_error rpc_error (lib.broadcast_tx_sync bytes)
    reject_if (not (eqb res.code 0))
        (plain ("broadcast rejected: code=" ++ show res.code ++ " log=" ++ lib.quote res.log))
    ok res

  -- the end of the function, with what `waitForTx` returned for the hash
  abbrev included : String → Result (Unit {0}) → String × Option Error
  included tx_hash (ok _) = (tx_hash, none)
  included tx_hash (err e) = (tx_hash, some (in_step "wait for inclusion" e))

  abbrev awaited : (Bytes → Result (Unit {0})) → Result BroadcastResult → String × Option Error
  awaited wait (err e) = ("", some e)
  awaited wait (ok res) = included (lib.hex_upper res.hash) (wait res.hash)

  -- BroadcastAuthzSend; `wait` is `waitForTx` at thirty seconds
  unfoldable pub broadcast_authz_send :
      (Bytes → Result (Unit {0})) → String → String → String → String → String × Option Error
  unfolding send_tx
  broadcast_authz_send wait from to denom amount = awaited wait (send_tx from to denom amount)
