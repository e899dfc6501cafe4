-- ===== src/Examples/OnChain.antt =====
-- A settlement through the Noble client, at the payment of the scenario.
use cosmos_pay.Noble.Wait.Laws.{IsIncluded}
use cosmos_pay.Noble.Wait.{wait_from, wait_for_tx}
use cosmos_pay.Adr036.{Bytes}
use cosmos_pay.Prelude.{ℕ, ◌+◌, String, ◌≡◌, refl, some, []}
use cosmos_pay.Clock.{unix_time}
use cosmos_pay.Errors.{ok}
use cosmos_pay.Nonces.Memory.{memory_store}
use cosmos_pay.Nonces.Memory.Laws.{memory_contract}
use cosmos_pay.Verify.{Verifier}
use cosmos_pay.Settle.{success, settle}
use cosmos_pay.Settle.Laws.{response_of}
use cosmos_pay.Server.{chains_of}
use cosmos_pay.Noble.{noble_wait, sender_of, noble_chain_client}
use cosmos_pay.Noble.Config.{NobleClient}
use cosmos_pay.Noble.Query.{
  QueryLib, find_coin, scan_grants, query_send_authorization, query_balance, query_account_num_seq,
}
use cosmos_pay.Noble.Broadcast.{sign_tx, build_tx, send_tx, broadcast_authz_send}
use cosmos_pay.Noble.Tx.{BroadcastResult}
use cosmos_pay.Noble.Broadcast.Laws.{IsSent}
use cosmos_pay.Deployment.Chain.{settled_on_chain}
use cosmos_pay.Examples.Scenario.{toy_lib, request_of}
use cosmos_pay.Examples.Node.{two_grants, toy_tx_lib, polls, in_time}
use cosmos_pay.Examples.Runs.{running}

-- a node with the two grants and a balance
abbrev rich_node : QueryLib
rich_node = record {
  grants = λ granter grantee. ok two_grants;
  balance = λ addr denom. ok (some "500000");
  account = λ addr. ok (ok (7, 3));
}

abbrev noble_client : NobleClient
noble_client = record {
  chain_id = "grand-1";
  prefix = "noble";
  denom = "uusdc";
  signer = [];
  address = "noble1fac";
}

abbrev noble_shop : Verifier
noble_shop = record {
  chains = chains_of (noble_chain_client rich_node toy_tx_lib in_time noble_client);
  clock = λ i. unix_time (1716700010 + i);
}

noble_run :
    response_of (settle toy_lib memory_store noble_shop (request_of "10000" "0x01") [])
    ≡ some (success "ABCD" "cosmos:grand-1" "noble1payer")
unfolding running find_coin scan_grants query_send_authorization query_balance query_account_num_seq
    sign_tx build_tx send_tx broadcast_authz_send
noble_run = refl

chain_waits : (hash : Bytes) → noble_wait toy_tx_lib polls 20 hash ≡ some (in_time hash)
unfolding wait_for_tx wait_from
chain_waits hash = refl

settled_on_chain_example :
    (res : BroadcastResult) × IsSent toy_tx_lib
      (sender_of noble_client)
      (query_account_num_seq rich_node)
      in_time
      "noble1payer"
      "noble1shop"
      "uusdc"
      "10000"
      res
    × (◌≡◌ {A = String} "ABCD" (toy_tx_lib.hex_upper res.hash))
    × (round : ℕ) × IsIncluded (polls.tx round)
settled_on_chain_example =
    settled_on_chain toy_lib memory_store memory_contract rich_node toy_tx_lib in_time noble_client
      noble_shop (request_of "10000" "0x01") [] (success "ABCD" "cosmos:grand-1" "noble1payer")
      (λ hash. polls) (λ hash. 20) chain_waits refl noble_run refl
