-- ===== src/Noble/Broadcast/Laws.antt =====
-- BroadcastAuthzSend of facilitator/chain_noble.go: its results.
use Prim.Native.String.{◌++◌}
use cosmos_pay.Prelude.{ℕ, String, Option, ◌∷◌, ◌≡◌, ◌≢◌, ◌⊎◌, inl, inr, none, some, arith, []}
use cosmos_pay.Errors.{Error, Result, ok, value_or, Result-cases}
use cosmos_pay.Adr036.{Bytes}
use cosmos_pay.Noble.Query.{Coin}
use cosmos_pay.Noble.Broadcast.{TxLib, Sender, signer_data, send_tx, broadcast_authz_send}
use cosmos_pay.Noble.Tx.{exec, Tx, BroadcastResult}

module _ (lib : TxLib) (c : Sender) (account : String → Result (ℕ × ℕ))
    (wait : Bytes → Result (Unit {0})) where
  -- The transaction that a transfer of a coin asks for: one `MsgExec` of the client's account around
  -- one `MsgSend`, the gas limit and the fee of the program, and the client's signature.
  abbrev pub transfer_tx : String → String → Coin → Bytes → ℕ → Option Bytes → Tx
  transfer_tx from to coin grantee sequence sig = record {
    msgs =
        exec (record {
          grantee = grantee;
          msgs = record { from_address = from; to_address = to; amount = lib.new_coins coin } ∷ [];
        })
        ∷ [];
    gas_limit = 250000;
    fee_amount = lib.new_coins (lib.int_coin c.denom (lib.fee_of 250000));
    fee_payer = none;
    memo = "x402-cosmos";
    signatures = record { pub_key = lib.pub_key; signature = sig; sequence = sequence } ∷ [];
  }

  -- The client's transaction for the transfer, as bytes: it carries the transfer of the parsed
  -- coin alone, and its signature is the client's key's over the sign bytes with an empty one.
  pub record IsSigned (from to denom amount : String) (tx_bytes : Bytes) : Type 0 where
    pub coin : Coin
    pub grantee : Bytes
    pub number : ℕ
    pub sequence : ℕ
    pub to_sign : Bytes
    pub sig : Bytes
    pub coin_parsed : lib.parse_coin (amount ++ denom) ≡ ok coin
    pub grantee_parsed : lib.account_bytes c.address ≡ ok grantee
    pub account_known : account c.address ≡ ok (number, sequence)
    pub msgs_set : lib.set_msgs (transfer_tx from to coin grantee sequence none).msgs ≡ ok tt
    pub empty_set :
        lib.set_signatures (transfer_tx from to coin grantee sequence none).signatures ≡ ok tt
    pub sign_bytes_made :
        lib.sign_bytes
          (record {
            chain_id = c.chain_id;
            account_number = number;
            sequence = sequence;
            pub_key = lib.pub_key;
            address = c.address;
          })
          (transfer_tx from to coin grantee sequence none)
        ≡ ok to_sign
    pub signed : lib.sign to_sign ≡ ok sig
    pub full_set :
        lib.set_signatures (transfer_tx from to coin grantee sequence (some sig)).signatures ≡ ok tt
    pub encoded : lib.encode_tx (transfer_tx from to coin grantee sequence (some sig)) ≡ ok tx_bytes

  -- The node accepted the client's transaction for the transfer, with code 0.
  pub record IsSent (from to denom amount : String) (res : BroadcastResult) : Type 0 where
    pub tx_bytes : Bytes
    pub transaction : IsSigned from to denom amount tx_bytes
    pub accepted : lib.broadcast_tx_sync tx_bytes ≡ ok res
    pub code : res.code ≡ 0

  send_tx-IsSent :
      (from to denom amount : String) (res : BroadcastResult)
      → send_tx lib c account from to denom amount ≡ ok res
      → IsSent from to denom amount res
  unfolding send_tx
  send_tx-IsSent from to denom amount res h =
      let coin = value_or (record { denom = ""; amount = "" }) (lib.parse_coin (amount ++ denom)) in
      let grantee = value_or [] (lib.account_bytes c.address) in
      let answer = value_or (0, 0) (account c.address) in
      let to_sign = value_or [] (
        lib.sign_bytes (signer_data lib c account answer.0 answer.1)
          (transfer_tx from to coin grantee answer.1 none)) in
      let sig = value_or [] (lib.sign to_sign) in
      let full = transfer_tx from to coin grantee answer.1 (some sig) in
      record {
        tx_bytes = value_or [] (lib.encode_tx full);
        transaction = record {
          coin = coin;
          grantee = grantee;
          number = answer.0;
          sequence = answer.1;
          to_sign = to_sign;
          sig = sig;
          coin_parsed = ground arith;
          grantee_parsed = ground arith;
          account_known = ground arith;
          msgs_set = ground arith;
          empty_set = ground arith;
          sign_bytes_made = ground arith;
          signed = ground arith;
          full_set = ground arith;
          encoded = ground arith;
        };
        accepted = ground arith;
        code = ground arith;
      }

  IsSent-send_tx :
      (from to denom amount : String) (res : BroadcastResult)
      → IsSent from to denom amount res
      → send_tx lib c account from to denom amount ≡ ok res
  unfolding send_tx
  IsSent-send_tx from to denom amount res p = ground arith

  -- If a broadcast reports no error, then the node accepted, with code 0, a transaction
  -- whose only message is one MsgExec of the client's account around one MsgSend of the
  -- parsed coin from the payer to the recipient, signed by the client's key over its sign
  -- bytes; the hash returned is the node's, and the wait for its inclusion succeeded.
  pub broadcast_sound :
      (from to denom amount tx_hash : String)
      → broadcast_authz_send lib c account wait from to denom amount ≡ (tx_hash, none)
      → (res : BroadcastResult) × IsSent from to denom amount res
        × (tx_hash ≡ lib.hex_upper res.hash)
        × (wait res.hash ≡ ok tt)
  unfolding broadcast_authz_send
  broadcast_sound from to denom amount tx_hash h =
      elim (Result-cases (send_tx lib c account from to denom amount)) [
        | inl (e, failed) ↦ absurd (ground arith)
        | inr (res, sent) ↦
            (res, send_tx-IsSent from to denom amount res sent, ground arith, ground arith)
      ]

  -- If a broadcast reports an error, then either the hash is empty, and there is no answer
  -- of the node that accepts, with code 0, the client's signed transaction of the transfer,
  -- or the node accepted that transaction, the hash is the node's, and it is the wait for
  -- the inclusion that failed.
  pub broadcast_error_cases :
      (from to denom amount tx_hash : String) (e : Error)
      → broadcast_authz_send lib c account wait from to denom amount ≡ (tx_hash, some e)
      → ((tx_hash ≡ "") × ((res : BroadcastResult) → ¬ IsSent from to denom amount res))
        ⊎ ((res : BroadcastResult) × IsSent from to denom amount res
            × (tx_hash ≡ lib.hex_upper res.hash)
            × (wait res.hash ≢ ok tt))
  unfolding broadcast_authz_send
  broadcast_error_cases from to denom amount tx_hash e h =
      elim (Result-cases (send_tx lib c account from to denom amount)) [
        | inl (e', failed) ↦
            inl (ground arith, λ res p. ground (arith, IsSent-send_tx from to denom amount res p))
        | inr (res, sent) ↦
            inr (res, send_tx-IsSent from to denom amount res sent, ground arith, ground arith)
      ]
