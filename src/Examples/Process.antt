-- ===== src/Examples/Process.antt =====
-- A facilitator that starts, settles one payment, collects, and is asked to settle it again.
use cosmos_pay.Prelude.{ℕ, ◌+◌, ◌≤◌, ◌≡◌, refl, List, [], ◌∷◌}
use cosmos_pay.Clock.{Time, unix_time}
use cosmos_pay.Errors.{Result, ok}
use cosmos_pay.Types.{VerifyRequest}
use cosmos_pay.Adr036.{Bytes}
use cosmos_pay.Verify.{Verifier, new_verifier}
use cosmos_pay.Settle.Laws.{auth}
use cosmos_pay.Http.{Request, ResponseWriter}
use cosmos_pay.Noble.{noble_chain_client}
use cosmos_pay.Noble.Config.{NobleClient, new_noble_client, env_or}
use cosmos_pay.Interleave.Count.{key, count}
use cosmos_pay.Server.{chains_of, settle_handler, getenv}
use cosmos_pay.Server.Main.{Connections, facilitator_main, Event, handles, collects}
use cosmos_pay.Server.Main.Laws.{paid_events, serve_pays_once}
use cosmos_pay.Examples.Scenario.{toy_lib, request_of, verifier_at, accepted}
use cosmos_pay.Examples.Endpoints.{premium}
use cosmos_pay.Examples.Node.{toy_node, toy_tx_lib}
use cosmos_pay.Examples.Tools.{toy_keys, toy_env}
use cosmos_pay.Examples.Runs.{running}

abbrev connected : Connections
connected = record {
  keys = toy_keys;
  dial_grpc = λ endpoint tls. ok tt;
  dial_rpc = λ endpoint. ok tt;
  queries = λ c. toy_node;
  txs = λ c. toy_tx_lib;
  wait = λ c hash. ok tt;
}

abbrev ticks : ℕ → Time
ticks n = unix_time (1716700000 + n)

abbrev client : NobleClient
client = record {
  chain_id = "grand-1";
  prefix = "noble";
  denom = "uusdc";
  signer = 1 ∷ [];
  address = "noble1payer";
}

abbrev started : Verifier
started =
    new_verifier (chains_of (noble_chain_client toy_node toy_tx_lib (λ hash. ok tt) client)) ticks

main_run : facilitator_main connected ticks toy_env ≡ ok (":8402", started, [])
unfolding facilitator_main new_noble_client env_or getenv
main_run = refl

abbrev one_request : Bytes → Result VerifyRequest
one_request b = ok (request_of "10000" "0x01")

abbrev not_found : ResponseWriter → Request → ResponseWriter
not_found w r = w

abbrev settle_call : Request
settle_call = record (premium "") { method = "POST"; path = "/settle" }

abbrev twice : List (Event toy_lib one_request not_found)
twice =
    handles (verifier_at 1716700010 accepted) settle_call
    ∷ collects (unix_time 1716700020)
    ∷ handles (verifier_at 1716700030 accepted) settle_call
    ∷ []

-- the second request is not paid for again
twice_run :
    paid_events toy_lib one_request not_found twice [] [] ≡ auth (request_of "10000" "0x01") ∷ []
unfolding running paid_events settle_handler
twice_run = refl

serve_pays_once_example :
    count
      (key (auth (request_of "10000" "0x01")))
      (paid_events toy_lib one_request not_found twice [] [])
    ≤ 1
serve_pays_once_example =
    serve_pays_once toy_lib one_request not_found connected ticks toy_env ":8402" started [] twice
      (key (auth (request_of "10000" "0x01"))) main_run
