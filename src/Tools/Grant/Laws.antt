-- ===== src/Tools/Grant/Laws.antt =====
-- tools/grant/main.go: what a run without an error has done.
use cosmos_pay.Prelude.{
  ℕ, String, ◌≡◌, ◌≢◌, eq_iff, Option, none, some, List, [], ◌∷◌, inl, inr, arith,
}
use cosmos_pay.Prelude.Text.{trim_space}
use cosmos_pay.Errors.{Result, ok, value_or, Result-cases}
use cosmos_pay.Adr036.{Bytes}
use cosmos_pay.Noble.Query.{Coin}
use cosmos_pay.Noble.Tx.{MsgGrant, grant, Tx, BroadcastResult}
use cosmos_pay.Noble.Wait.{Polls}
use cosmos_pay.Noble.Wait.Laws.{IsIncluded, wait_for_tx_sound}
use cosmos_pay.Tools.Keys.{derive_key}
use cosmos_pay.Tools.Grant.{
  GrantLib, Flags, grant_message, grant_signer, sign_grant, make_grant, grant_wait_texts,
  grant_wait, run, grant_main,
}

module _ (lib : GrantLib) (flags : Flags) where
  -- The message grants the parsed limit from the granter to the grantee, up to the expiration.
  pub record IsGrant (granter : String) (msg : Bytes × MsgGrant) : Type 0 where
    pub coins : List Coin
    pub grantee_acc : Bytes
    pub coins_parsed : lib.parse_coins flags.spend_limit ≡ ok coins
    pub granter_parsed : lib.account_bytes granter ≡ ok msg.0
    pub grantee_parsed : lib.account_bytes flags.grantee ≡ ok grantee_acc
    pub built :
        lib.new_msg_grant (record {
          granter = msg.0;
          grantee = grantee_acc;
          spend_limit = coins;
          expiration = flags.expires;
        })
        ≡ ok msg.1

  grant_message-IsGrant :
      (granter : String) (msg : Bytes × MsgGrant)
      → grant_message lib flags granter ≡ ok msg
      → IsGrant granter msg
  unfolding grant_message
  grant_message-IsGrant granter msg h = record {
    coins = value_or [] (lib.parse_coins flags.spend_limit);
    grantee_acc = value_or [] (lib.account_bytes flags.grantee);
    coins_parsed = ground arith;
    granter_parsed = ground arith;
    grantee_parsed = ground arith;
    built = ground arith;
  }

  -- The transaction that the grant asks for: the message alone, the gas limit and the fee of the
  -- command, the granter as fee payer, and one signature.
  abbrev pub granting_tx : Bytes → Bytes × MsgGrant → ℕ → Option Bytes → Tx
  granting_tx priv (granter_acc, msg) sequence sig = record {
    msgs = grant msg ∷ [];
    gas_limit = 200000;
    fee_amount = lib.new_coins (lib.int_coin flags.gas_denom 20000);
    fee_payer = some granter_acc;
    memo = "x402-cosmos grant";
    signatures =
        record { pub_key = lib.keys.pub_key priv; signature = sig; sequence = sequence } ∷ [];
  }

  -- The transaction carries that message alone, is paid for by the granter, and is signed by the
  -- key of the mnemonic over its sign bytes with an empty signature.
  pub record IsSignedGrant (tx : Tx) : Type 0 where
    pub priv : Bytes
    pub granter : String
    pub msg : Bytes × MsgGrant
    pub number : ℕ
    pub sequence : ℕ
    pub to_sign : Bytes
    pub sig : Bytes
    pub derived :
        lib.keys.derive_private_key_for_path
          (lib.keys.compute_masters_from_seed (lib.keys.new_seed (trim_space flags.mnemonic) "")).0
          (lib.keys.compute_masters_from_seed (lib.keys.new_seed (trim_space flags.mnemonic) "")).1
          "m/44'/118'/0'/0/0"
        ≡ ok priv
    pub address :
        lib.keys.convert_and_encode flags.prefix (lib.keys.address (lib.keys.pub_key priv))
        ≡ ok granter
    pub message : IsGrant granter msg
    pub account_known : lib.account granter ≡ ok (ok (number, sequence))
    pub sign_bytes_made :
        lib.sign_bytes
          (record {
            chain_id = flags.chain_id;
            account_number = number;
            sequence = sequence;
            pub_key = lib.keys.pub_key priv;
            address = granter;
          })
          (granting_tx priv msg sequence none)
        ≡ ok to_sign
    pub signed : lib.sign priv to_sign ≡ ok sig
    pub whole : tx ≡ granting_tx priv msg sequence (some sig)

  derive_key_lem :
      (priv : Bytes) (granter : String)
      → derive_key lib.keys flags.mnemonic flags.prefix ≡ ok (priv, granter)
      → (lib.keys.derive_private_key_for_path
            (lib.keys.compute_masters_from_seed
              (lib.keys.new_seed (trim_space flags.mnemonic) "")).0
            (lib.keys.compute_masters_from_seed
              (lib.keys.new_seed (trim_space flags.mnemonic) "")).1
            "m/44'/118'/0'/0/0"
          ≡ ok priv)
        × (lib.keys.convert_and_encode flags.prefix (lib.keys.address (lib.keys.pub_key priv))
            ≡ ok granter)
  unfolding derive_key
  derive_key_lem priv granter h = (ground arith, ground arith)

  make_grant-IsSignedGrant : (tx : Tx) → make_grant lib flags ≡ ok tx → IsSignedGrant tx
  unfolding make_grant sign_grant
  make_grant-IsSignedGrant tx h =
      let account = value_or ([], "") (derive_key lib.keys flags.mnemonic flags.prefix) in
      let answer = value_or (0, 0) (value_or (ok (0, 0)) (lib.account account.1)) in
      elim (Result-cases (grant_message lib flags account.1)) [
        | inl (e, failed) ↦ absurd (ground arith)
        | inr (msg, made) ↦
            let (derived, address) = derive_key_lem account.0 account.1 (ground arith) in
            let to_sign = value_or [] (
              lib.sign_bytes (grant_signer lib flags account.0 account.1 answer.0 answer.1)
                (granting_tx account.0 msg answer.1 none)) in
            record {
              priv = account.0;
              granter = account.1;
              msg = msg;
              number = answer.0;
              sequence = answer.1;
              to_sign = to_sign;
              sig = value_or [] (lib.sign account.0 to_sign);
              derived = derived;
              address = address;
              message = grant_message-IsGrant account.1 msg made;
              account_known = ground arith;
              sign_bytes_made = ground arith;
              signed = ground arith;
              whole = ground arith;
            }
      ]

  -- Let the wait be the polling loop with enough fuel to end. If the command ends without an
  -- error, then the mnemonic and the grantee are given, and the node accepted, with code 0,
  -- the encoding of a transaction whose only message is the grant, with the granter as fee
  -- payer, signed over its sign bytes by the key of the mnemonic, and in some round its
  -- answer held the transaction at a positive height with code 0.
  pub grant_main_sound :
      (wait : Bytes → Result (Unit {0})) (polls : Bytes → Polls) (fuel : Bytes → ℕ)
      → ((hash : Bytes) → grant_wait lib flags (polls hash) (fuel hash) hash ≡ some (wait hash))
      → grant_main lib flags wait ≡ ok tt
      → (flags.mnemonic ≢ "")
        × (flags.grantee ≢ "")
        × (tx : Tx) × (bytes : Bytes) × (res : BroadcastResult) × IsSignedGrant tx
        × (lib.encode_tx tx ≡ ok bytes)
        × (lib.broadcast_tx_sync bytes ≡ ok res)
        × (res.code ≡ 0)
        × (round : ℕ) × IsIncluded ((polls res.hash).tx round)
  unfolding grant_main run
  grant_main_sound wait polls fuel waits h = elim (Result-cases (make_grant lib flags)) [
    | inl (e, failed) ↦ absurd (ground arith)
    | inr (tx, made) ↦
        let bytes = value_or [] (lib.encode_tx tx) in
        elim (Result-cases (lib.broadcast_tx_sync bytes)) [
          | inl (e, failed) ↦ absurd (ground arith)
          | inr (res, accepted) ↦
              let confirmed : wait res.hash ≡ ok tt = ground arith in
              let (round, lt, there) =
                wait_for_tx_sound (grant_wait_texts lib res.hash) (polls res.hash) (fuel res.hash)
                  30 (rw confirmed at (waits res.hash)) in
              (
                ground (arith, eq_iff flags.mnemonic ""),
                ground (arith, eq_iff flags.grantee ""),
                tx,
                bytes,
                res,
                make_grant-IsSignedGrant tx made,
                ground arith,
                accepted,
                ground arith,
                round,
                there,
              )
        ]
  ]
