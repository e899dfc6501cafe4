-- ===== src/Deployment/Chain.antt =====
-- facilitator/settle.go over facilitator/chain_noble.go, with the table of chains that
-- facilitator/cmd/main.go builds.
use cosmos_pay.Prelude.{ℕ, String, ◌≡◌, true, some, arith}
use cosmos_pay.Errors.{Result}
use cosmos_pay.Types.{SettleRequest, SettleResponse}
use cosmos_pay.Nonces.{NonceStore}
use cosmos_pay.Nonces.Table.{lookup}
use cosmos_pay.Nonces.Contract.{Contract}
use cosmos_pay.Chain.{ChainClient}
use cosmos_pay.Adr036.{SignLib, Bytes}
use cosmos_pay.Verify.{Verifier}
use cosmos_pay.Settle.{settle}
use cosmos_pay.Settle.Laws.{auth, response_of, settle-IsPaid}
use cosmos_pay.Server.{chains_of}
use cosmos_pay.Noble.{noble_wait_texts, noble_wait, sender_of, noble_chain_client}
use cosmos_pay.Noble.Wait.{Polls}
use cosmos_pay.Noble.Wait.Laws.{IsIncluded, wait_for_tx_sound}
use cosmos_pay.Noble.Config.{NobleClient}
use cosmos_pay.Noble.Query.{QueryLib, query_account_num_seq}
use cosmos_pay.Noble.Broadcast.{TxLib}
use cosmos_pay.Noble.Tx.{BroadcastResult}
use cosmos_pay.Noble.Broadcast.Laws.{IsSent, broadcast_sound}

pub lookup-chains_of :
    (network : String) (client found : ChainClient)
    → lookup network (chains_of client) ≡ some found
    → found ≡ client
unfolding lookup
lookup-chains_of network client found h = ground arith

module _ (lib : SignLib) (N : NonceStore) (K : Contract N) (queries : QueryLib) (txs : TxLib)
    (wait : Bytes → Result (Unit {0})) (c : NobleClient) where
  -- Let the nonce store keep the contract, the facilitator serve the chain of one Noble
  -- client alone, and the wait be the polling loop with enough fuel to end. If a settlement
  -- responds with success, then the node accepted, with code 0, a transaction whose only
  -- message is one MsgExec of the client's account around one MsgSend of the transfer of its
  -- authorization, signed by the client's key; in some round its answer held the transaction
  -- at a positive height with code 0; and the response names its hash.
  pub settled_on_chain :
      (v : Verifier) (req : SettleRequest) (s : N.State) (response : SettleResponse)
      (polls : Bytes → Polls) (fuel : Bytes → ℕ)
      → ((hash : Bytes) → noble_wait txs (polls hash) (fuel hash) hash ≡ some (wait hash))
      → v.chains ≡ chains_of (noble_chain_client queries txs wait c)
      → response_of (settle lib N v req s) ≡ some response
      → response.success ≡ true
      → (res : BroadcastResult) × IsSent txs
          (sender_of c)
          (query_account_num_seq queries)
          wait
          (auth req).from
          (auth req).to
          (auth req).denom
          (auth req).amount
          res
        × (response.transaction ≡ txs.hex_upper res.hash)
        × (round : ℕ) × IsIncluded ((polls res.hash).tx round)
  settled_on_chain v req s response polls fuel waits serves h yes_paid =
      let paid = settle-IsPaid lib N K v req s response h yes_paid in
      let network = paid.verified.network in
      let same =
        lookup-chains_of req.payment_payload.network (noble_chain_client queries txs wait c)
          paid.verified.client (rw serves at network.configured) in
      let (res, sent, hash, confirmed) =
        broadcast_sound txs (sender_of c) (query_account_num_seq queries) wait (auth req).from
          (auth req).to (auth req).denom (auth req).amount paid.tx_hash (rw same at paid.sent) in
      let (round, lt, there) =
        wait_for_tx_sound (noble_wait_texts txs res.hash) (polls res.hash) (fuel res.hash) 30
          (rw confirmed at (waits res.hash)) in
      (res, sent, ground (arith, paid.answer, hash), round, there)
