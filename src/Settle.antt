-- ===== src/Settle.antt =====
-- facilitator/settle.go: the settlement of a payment. The nonce store's state is passed along; the
-- result also records the broadcast that the call made, if it made one.
pub mod Laws
pub mod Effects
pub mod Replay
use cosmos_pay.Prelude.{String, Bool, true, false, Option, none, some}
use cosmos_pay.Clock.{unix_time}
use cosmos_pay.Errors.{Error, Result, ok, err, error_code, is_nonce_used}
use cosmos_pay.Types.{Authorization, SettleRequest, SettleResponse}
use cosmos_pay.Types.Codes.{err_nonce_already_used, err_broadcast_failed, err_unexpected}
use cosmos_pay.Nonces.{NonceStore}
use cosmos_pay.Nonces.Table.{lookup}
use cosmos_pay.Chain.{ChainClient}
use cosmos_pay.Adr036.{SignLib}
use cosmos_pay.Verify.{Verifier, verify}

-- one call of BroadcastAuthzSend
pub record Broadcast : Type 0 where
  pub from : String
  pub to : String
  pub denom : String
  pub amount : String
  pub tx_hash : String
  pub error : Option Error

-- `panicked` is the call of a method of the nil client of a network that is not configured.
pub data Outcome (S : Type 0) : Type 0 where
  responded : SettleResponse → S → Option Broadcast → Outcome S
  panicked : S → Outcome S

abbrev pub failure : String → String → String → SettleResponse
failure reason network payer = record {
  success = false;
  error_reason = reason;
  transaction = "";
  network = network;
  payer = payer;
}

abbrev pub success : String → String → String → SettleResponse
success tx_hash network payer = record {
  success = true;
  error_reason = "";
  transaction = tx_hash;
  network = network;
  payer = payer;
}

-- the code of a failed `Reserve`
abbrev pub reserve_code : Error → String
reserve_code e = elim (is_nonce_used e) [ true ↦ err_nonce_already_used | false ↦ err_unexpected ]

module _ (N : NonceStore) where
  -- after the broadcast: `Release` on an error, else `Commit`; what either returns is dropped
  unfoldable pub finish :
      Authorization → String → String → String × Option Error → N.State → Outcome N.State
  finish a network payer (tx_hash, none) s =
      let (_, s') = N.commit a.from a.chain_id a.nonce tx_hash s in
      responded (success tx_hash network payer) s' (
        some (record {
          from = a.from;
          to = a.to;
          denom = a.denom;
          amount = a.amount;
          tx_hash = tx_hash;
          error = none;
        }))
  finish a network payer (tx_hash, some e) s =
      let (_, s') = N.release a.from a.chain_id a.nonce s in
      responded (failure err_broadcast_failed network payer) s' (
        some (record {
          from = a.from;
          to = a.to;
          denom = a.denom;
          amount = a.amount;
          tx_hash = tx_hash;
          error = some e;
        }))

  -- the broadcast, once the nonce is reserved
  unfoldable pub pay :
      Authorization → String → String → Option ChainClient → N.State → Outcome N.State
  unfolding finish
  pay a network payer none s = panicked s
  pay a network payer (some client) s =
      finish a network payer (client.broadcast_authz_send a.from a.to a.denom a.amount) s

  abbrev after_reserve :
      Authorization
      → String
      → String
      → Option ChainClient
      → Option Error × N.State
      → Outcome N.State
  after_reserve a network payer client (some e, s) =
      responded (failure (reserve_code e) network payer) s none
  after_reserve a network payer client (none, s) = pay a network payer client s

  -- from the reservation on, for a payment that verified
  unfoldable pub reserve_and_pay : Verifier → SettleRequest → String → N.State → Outcome N.State
  unfolding pay lookup
  reserve_and_pay v req payer s =
      let pp = req.payment_payload in
      let a = pp.payload.authorization in
      after_reserve a pp.network payer (lookup pp.network v.chains)
        (N.reserve a.from a.chain_id a.nonce (unix_time a.valid_before) s)

module _ (lib : SignLib) (N : NonceStore) where
  -- (*Settler).Settle
  unfoldable pub settle : Verifier → SettleRequest → N.State → Outcome N.State
  settle v req s = elim (verify lib N v req s) [
    | err e ↦ responded (failure (error_code e) req.payment_payload.network "") s none
    | ok payer ↦ reserve_and_pay N v req payer s
  ]
