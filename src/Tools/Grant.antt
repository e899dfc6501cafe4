-- ===== src/Tools/Grant.antt =====
-- tools/grant/main.go: the command that grants the facilitator a spend limit. The SDK's functions
-- are the record `GrantLib`. The flags are parameters of `run`; the log and the process-wide bech32
-- prefixes are not modelled.
pub mod Laws
use Prim.Native.String.{◌++◌}
use cosmos_pay.Prelude.{
  ℕ, String, Bool, true, false, not, ◌==◌, Option, none, some, List, [], ◌∷◌, eqb, if◌then◌else◌,
}
use cosmos_pay.Clock.{Time}
use cosmos_pay.Errors.{
  Error, plain, wrapped, error_text, Result, ok, err, ◌>>=◌, ◌>>◌, reject_if, map_error, in_step,
}
use cosmos_pay.Adr036.{Bytes, show}
use cosmos_pay.Noble.Config.{Env, env_or, KeyLib}
use cosmos_pay.Noble.Query.{Coin}
use cosmos_pay.Noble.Tx.{MsgGrant, Msg, grant, Signature, Tx, SignerData, BroadcastResult}
use cosmos_pay.Noble.Wait.{WaitTexts, Polls, wait_for_tx}
use cosmos_pay.Tools.Keys.{derive_key}

pub record GrantLib : Type 0 where
  pub keys : KeyLib
  -- sdk.ParseCoinsNormalized, NewCoins of one coin, NewInt64Coin
  pub parse_coins : String → Result (List Coin)
  pub new_coins : Coin → List Coin
  pub int_coin : String → ℕ → Coin
  -- sdk.AccAddressFromBech32
  pub account_bytes : String → Result Bytes
  -- authz.NewMsgGrant, which packs the authorization
  pub new_msg_grant : MsgGrant → Result MsgGrant
  -- the dials of the gRPC and the RPC endpoint
  pub dial_grpc : String → Bool → Result (Unit {0})
  pub dial_rpc : String → Result (Unit {0})
  -- authQC.Account and the unpacking of its answer
  pub account : String → Result (Result (ℕ × ℕ))
  -- the setters that validate
  pub set_msgs : List Msg → Result (Unit {0})
  pub set_signatures : List Signature → Result (Unit {0})
  -- authsigning.GetSignBytesAdapter in direct mode, priv.Sign, the encoder, BroadcastTxSync
  pub sign_bytes : SignerData → Tx → Result Bytes
  pub sign : Bytes → Bytes → Result Bytes
  pub encode_tx : Tx → Result Bytes
  pub broadcast_tx_sync : Bytes → Result BroadcastResult
  -- fmt's %X
  pub hex_upper : Bytes → String
  -- fmt's %q
  pub quote : String → String

-- the flags; `expires` is the time of the call plus the flag `expiration`
pub record Flags : Type 0 where
  pub mnemonic : String
  pub grantee : String
  pub spend_limit : String
  pub expires : Time
  pub chain_id : String
  pub prefix : String
  pub grpc_endpoint : String
  pub grpc_tls : Bool
  pub rpc_endpoint : String
  pub gas_denom : String

-- the flags when none is given
unfoldable pub default_flags : Env → Time → Flags
unfolding env_or
default_flags env expires = record {
  mnemonic = env "PAYER_MNEMONIC";
  grantee = "";
  spend_limit = "1000000uusdc";
  expires = expires;
  chain_id = env_or env "X402_NOBLE_CHAIN_ID" "grand-1";
  prefix = env_or env "X402_NOBLE_PREFIX" "noble";
  grpc_endpoint = env_or env "X402_NOBLE_GRPC" "noble-testnet-grpc.polkachu.com:21590";
  grpc_tls = env "X402_NOBLE_GRPC_TLS" == "true";
  rpc_endpoint = env_or env "X402_NOBLE_RPC" "https://noble-testnet-rpc.polkachu.com";
  gas_denom = "uusdc";
}

abbrev pub grant_gas_limit : ℕ
grant_gas_limit = 200000

-- int64(float64(gasLimit) * 0.1), a constant of the language
abbrev pub grant_fee : ℕ
grant_fee = 20000

-- the texts of the errors of waitForTx
abbrev pub grant_wait_texts : GrantLib → Bytes → WaitTexts
grant_wait_texts lib hash = record {
  failed = λ code log. "tx failed: code=" ++ show code ++ " log=" ++ lib.quote log;
  timed_out = "timeout waiting for " ++ lib.hex_upper hash;
}

module _ (lib : GrantLib) (flags : Flags) where
  -- the granter's account and the message, from the granter's address on
  unfoldable pub grant_message : String → Result (Bytes × MsgGrant)
  grant_message granter = do
    coins ← map_error (in_step "parse spend-limit") (lib.parse_coins flags.spend_limit)
    granter_acc ← map_error (in_step "parse granter") (lib.account_bytes granter)
    grantee_acc ← map_error (in_step "parse grantee") (lib.account_bytes flags.grantee)
    msg ← map_error (in_step "build MsgGrant") (
        lib.new_msg_grant (record {
          granter = granter_acc;
          grantee = grantee_acc;
          spend_limit = coins;
          expiration = flags.expires;
        }))
    ok (granter_acc, msg)

  -- the transaction before its signatures
  abbrev pub grant_tx : Bytes × MsgGrant → Tx
  grant_tx (granter_acc, msg) = record {
    msgs = grant msg ∷ [];
    gas_limit = grant_gas_limit;
    fee_amount = lib.new_coins (lib.int_coin flags.gas_denom grant_fee);
    fee_payer = some granter_acc;
    memo = "x402-cosmos grant";
    signatures = [];
  }

  abbrev pub grant_signature : Bytes → Option Bytes → ℕ → List Signature
  grant_signature priv sig sequence =
      record { pub_key = lib.keys.pub_key priv; signature = sig; sequence = sequence } ∷ []

  abbrev pub grant_signer : Bytes → String → ℕ → ℕ → SignerData
  grant_signer priv granter number sequence = record {
    chain_id = flags.chain_id;
    account_number = number;
    sequence = sequence;
    pub_key = lib.keys.pub_key priv;
    address = granter;
  }

  -- the two passes of the signature
  unfoldable pub sign_grant : Bytes → String → Bytes × MsgGrant → ℕ → ℕ → Result Tx
  sign_grant priv granter msg number sequence = do
    map_error (in_step "set msg") (lib.set_msgs (grant_tx msg).msgs)
    map_error (in_step "set empty sig") (lib.set_signatures (grant_signature priv none sequence))
    let empty = record (grant_tx msg) { signatures = grant_signature priv none sequence }
    bytes ←
        map_error (in_step "get sign bytes")
          (lib.sign_bytes (grant_signer priv granter number sequence) empty)
    sig ← map_error (in_step "sign") (lib.sign priv bytes)
    map_error (in_step "set sig") (lib.set_signatures (grant_signature priv (some sig) sequence))
    ok (record empty { signatures = grant_signature priv (some sig) sequence })

  -- up to the signed transaction
  unfoldable pub make_grant : Result Tx
  unfolding grant_message sign_grant
  make_grant = do
    (priv, granter) ←
        map_error (in_step "derive payer key") (derive_key lib.keys flags.mnemonic flags.prefix)
    msg ← grant_message granter
    map_error (in_step "dial grpc") (lib.dial_grpc flags.grpc_endpoint flags.grpc_tls)
    map_error (in_step "dial rpc") (lib.dial_rpc flags.rpc_endpoint)
    answer ← map_error (in_step "query account") (lib.account granter)
    (number, sequence) ← map_error (in_step "unpack account") answer
    sign_grant priv granter msg number sequence

  -- waitForTx at thirty seconds, with fuel
  abbrev pub grant_wait : Polls → ℕ → Bytes → Option (Result (Unit {0}))
  grant_wait polls fuel hash = wait_for_tx (grant_wait_texts lib hash) polls fuel 30

  -- run; `wait` is `waitForTx` at thirty seconds
  unfoldable pub run : (Bytes → Result (Unit {0})) → Result (Unit {0})
  unfolding make_grant
  run wait = do
    tx ← make_grant
    bytes ← map_error (in_step "encode tx") (lib.encode_tx tx)
    res ← map_error (in_step "broadcast") (lib.broadcast_tx_sync bytes)
    reject_if (not (eqb res.code 0))
        (plain ("broadcast rejected: code=" ++ show res.code ++ " log=" ++ lib.quote res.log))
    map_error (in_step "inclusion") (wait res.hash)

  -- main: the required flags, then `run`
  unfoldable pub grant_main : (Bytes → Result (Unit {0})) → Result (Unit {0})
  grant_main wait = do
    reject_if (flags.mnemonic == "") (plain "--mnemonic (or PAYER_MNEMONIC) is required")
    reject_if (flags.grantee == "") (plain "--grantee is required")
    run wait
