-- ===== src/Server/Main.antt =====
-- main of facilitator/cmd/main.go: what it starts with, its mux, and the process as it handles
-- requests one after another between rounds of the collector. Listening and the log are not
-- modelled. An error is the text of log.Fatalf.
pub mod Laws
use cosmos_pay.Prelude.{ℕ, String, ◌==◌, if◌then◌else◌, Bool, Option, none, some, List, [], ◌∷◌}
use cosmos_pay.Clock.{Time}
use cosmos_pay.Errors.{Result, ok, err, ◌>>=◌, map_error, fatal}
use cosmos_pay.Types.{Authorization, VerifyRequest}
use cosmos_pay.Nonces.Memory.{MemoryNonceStore, new_memory_nonce_store, memory_store, gc}
use cosmos_pay.Chain.{ChainClient}
use cosmos_pay.Adr036.{SignLib, Bytes}
use cosmos_pay.Verify.{Verifier, new_verifier}
use cosmos_pay.Settle.{Outcome}
use cosmos_pay.Settle.Laws.{state_of}
use cosmos_pay.Http.{Request, ResponseWriter, new_writer, write_status, status_ok}
use cosmos_pay.Noble.{noble_chain_client}
use cosmos_pay.Noble.Config.{Env, KeyLib, NobleClient, new_noble_client}
use cosmos_pay.Noble.Query.{QueryLib}
use cosmos_pay.Noble.Broadcast.{TxLib}
use cosmos_pay.Server.{chains_of, verify_handler, settle_handler, supported_handler, getenv}

-- What the process connects to: the dials, and for a client its services, the wait and the clock.
pub record Connections : Type 0 where
  pub keys : KeyLib
  pub dial_grpc : String → Bool → Result (Unit {0})
  pub dial_rpc : String → Result (Unit {0})
  pub queries : NobleClient → QueryLib
  pub txs : NobleClient → TxLib
  pub wait : NobleClient → Bytes → Result (Unit {0})

-- the address to listen on, the verifier, which the settler shares, and the store
unfoldable pub facilitator_main :
    Connections → (ℕ → Time) → Env → Result (String × Verifier × MemoryNonceStore)
facilitator_main net now env = do
  let addr = getenv env "X402_FACILITATOR_ADDR" ":8402"
  c ←
      map_error (fatal "init noble client")
        (new_noble_client net.keys net.dial_grpc net.dial_rpc env)
  let chains = chains_of (noble_chain_client (net.queries c) (net.txs c) (net.wait c) c)
  ok (addr, new_verifier chains now, new_memory_nonce_store)

module _ (lib : SignLib) (decode : Bytes → Result VerifyRequest)
    (other : ResponseWriter → Request → ResponseWriter) where
  -- The mux: the writer, and what a settlement did. `other` answers the paths that no pattern
  -- matches.
  unfoldable pub facilitator_mux :
      Verifier
      → ResponseWriter
      → Request
      → MemoryNonceStore
      → ResponseWriter × Option (Outcome MemoryNonceStore)
  facilitator_mux v w r s =
      if r.path == "/verify"
      then (verify_handler lib memory_store decode v w r s, none)
      else if r.path == "/settle"
      then settle_handler lib memory_store decode v w r s
      else if r.path == "/supported"
      then (supported_handler v.chains w, none)
      else if r.path == "/healthz"
      then (write_status status_ok w, none)
      else (other w r, none)

  -- the store after a request
  abbrev pub store_after : Option (Outcome MemoryNonceStore) → MemoryNonceStore → MemoryNonceStore
  store_after none s = s
  store_after (some o) s = state_of o

  -- what happens to the process: a request, with the clock and the chains as they are then, or a
  -- round of the collector
  pub data Event : Type 0 where
    handles : Verifier → Request → Event
    collects : Time → Event

  abbrev pub step : Event → MemoryNonceStore → MemoryNonceStore
  step (handles v r) s = store_after (facilitator_mux v new_writer r s).1 s
  step (collects now) s = (gc now s).1

  -- the events in their order
  unfoldable pub serve : List Event → MemoryNonceStore → MemoryNonceStore
  unfolding facilitator_mux gc
  serve [] s = s
  serve (e ∷ events) s = serve events (step e s)
