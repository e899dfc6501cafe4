-- ===== src/Noble.antt =====
-- facilitator/chain_noble.go: the chain client of a Cosmos SDK chain. Its parts are Noble/Config
-- (the environment and the keys), Noble/Connect (connections, codec and prefixes), Noble/Query
-- (grants, balances, accounts), Noble/Wait (polling for inclusion), Noble/Tx (transactions) and
-- Noble/Broadcast (building, signing and sending one).
pub mod Config
pub mod Connect
pub mod Query
pub mod Wait
pub mod Tx
pub mod Broadcast
use Prim.Native.String.{◌++◌}
use cosmos_pay.Prelude.{ℕ, Option}
use cosmos_pay.Errors.{Result}
use cosmos_pay.Adr036.{Bytes, show}
use cosmos_pay.Noble.Wait.{WaitTexts, Polls, wait_for_tx}
use cosmos_pay.Chain.{ChainClient}
use cosmos_pay.Noble.Config.{NobleClient}
use cosmos_pay.Noble.Query.{
  QueryLib, query_send_authorization, query_balance, query_account_num_seq,
}
use cosmos_pay.Noble.Broadcast.{TxLib, Sender, broadcast_authz_send}

-- the texts of the errors of waitForTx
abbrev pub noble_wait_texts : TxLib → Bytes → WaitTexts
noble_wait_texts txs hash = record {
  failed = λ code log. "tx failed on chain: code=" ++ show code ++ " log=" ++ txs.quote log;
  timed_out = "timeout waiting for tx " ++ txs.hex_upper hash;
}

-- waitForTx at thirty seconds, with fuel
abbrev pub noble_wait : TxLib → Polls → ℕ → Bytes → Option (Result (Unit {0}))
noble_wait txs polls fuel hash = wait_for_tx (noble_wait_texts txs hash) polls fuel 30

abbrev pub sender_of : NobleClient → Sender
sender_of c = record { chain_id = c.chain_id; denom = c.denom; address = c.address }

-- The client as a `ChainClient`; `wait` is `waitForTx` at thirty seconds.
abbrev pub noble_chain_client :
    QueryLib → TxLib → (Bytes → Result (Unit {0})) → NobleClient → ChainClient
noble_chain_client queries txs wait c = record {
  chain_id = c.chain_id;
  account_prefix = c.prefix;
  query_send_authorization = query_send_authorization queries;
  query_balance = query_balance queries;
  broadcast_authz_send =
      broadcast_authz_send txs (sender_of c) (query_account_num_seq queries) wait;
}
