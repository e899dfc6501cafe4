-- ===== src/Server/Main/Laws.antt =====
-- main of facilitator/cmd/main.go: the payments of a process that handles requests one after another.
use cosmos_pay.Prelude.{
  ℕ, ◌≤◌, String, ◌≡◌, ◌⊎◌, inl, inr, refl, Option, none, some, List, [], ◌∷◌, arith, Bool-cases,
  ◌==◌,
}
use cosmos_pay.Clock.{Time}
use cosmos_pay.Errors.{Result, ok, err, Result-cases}
use cosmos_pay.Types.{Authorization, VerifyRequest}
use cosmos_pay.Nonces.Memory.{MemoryNonceStore, memory_store, gc}
use cosmos_pay.Adr036.{SignLib, Bytes}
use cosmos_pay.Verify.{Verifier}
use cosmos_pay.Settle.{Outcome, responded, panicked, settle}
use cosmos_pay.Settle.Laws.{auth}
use cosmos_pay.Http.{Request, ResponseWriter, new_writer}
use cosmos_pay.Noble.Config.{Env}
use cosmos_pay.Interleave.{ReachesSparing, begin, then_collect}
use cosmos_pay.Interleave.Count.{count}
use cosmos_pay.Interleave.Collector.{paid_once_collecting}
use cosmos_pay.Interleave.Serial.{idle, paid_by, settle-Reaches}
use cosmos_pay.Server.{settled, settle_handler}
use cosmos_pay.Server.Main.{
  Connections, facilitator_main, facilitator_mux, Event, handles, collects, step, serve,
}

module _ (lib : SignLib) (decode : Bytes → Result VerifyRequest)
    (other : ResponseWriter → Request → ResponseWriter) where
  -- the payments after a request that did this
  abbrev paid_after :
      Request → Option (Outcome MemoryNonceStore) → List Authorization → List Authorization
  paid_after r none paid = paid
  paid_after r (some o) paid = elim (decode r.body) [
    | err e ↦ paid
    | ok req ↦ paid_by (auth req) o paid
  ]

  abbrev paid_step :
      Event lib decode other → MemoryNonceStore → List Authorization → List Authorization
  paid_step (handles v r) s paid =
      paid_after r (facilitator_mux lib decode other v new_writer r s).1 paid
  paid_step (collects now) s paid = paid

  -- The authorizations whose transfer was broadcast with success, over the events in their order.
  unfoldable pub paid_events :
      List (Event lib decode other) → MemoryNonceStore → List Authorization → List Authorization
  unfolding facilitator_mux gc
  paid_events [] s paid = paid
  paid_events (e ∷ events) s paid =
      paid_events events (step lib decode other e s) (paid_step e s paid)

  settled_outcome :
      (w : ResponseWriter) (o : Outcome MemoryNonceStore)
      → (settled lib memory_store decode o w).1 ≡ o
  settled_outcome w (responded response s sent) = refl
  settled_outcome w (panicked s) = refl

  handler_outcome :
      (v : Verifier) (w : ResponseWriter) (r : Request) (s : MemoryNonceStore)
      → ((settle_handler lib memory_store decode v w r s).1 ≡ none)
        ⊎ ((req : VerifyRequest) × (decode r.body ≡ ok req)
            × ((settle_handler lib memory_store decode v w r s).1
                ≡ some (settle lib memory_store v req s)))
  unfolding settle_handler
  handler_outcome v w r s = elim (Result-cases (decode r.body)) [
    | inl (e, failed) ↦ inl (ground arith)
    | inr (req, decoded) ↦ elim (Bool-cases (r.method == "POST")) [
      | inl posted ↦
          inr (req, decoded, ground (arith, settled_outcome w (settle lib memory_store v req s)))
      | inr unposted ↦ inl (ground arith)
    ]
  ]

  -- A request makes the settlement of what it decodes to, or none.
  mux_outcome :
      (v : Verifier) (w : ResponseWriter) (r : Request) (s : MemoryNonceStore)
      → ((facilitator_mux lib decode other v w r s).1 ≡ none)
        ⊎ ((req : VerifyRequest) × (decode r.body ≡ ok req)
            × ((facilitator_mux lib decode other v w r s).1
                ≡ some (settle lib memory_store v req s)))
  unfolding facilitator_mux
  mux_outcome v w r s = elim (handler_outcome v w r s) [
    | inl unsettled ↦ inl (ground arith)
    | inr (req, decoded, made) ↦ elim (Bool-cases (r.path == "/verify")) [
      | inl verifies ↦ inl (ground arith)
      | inr elsewhere ↦ elim (Bool-cases (r.path == "/settle")) [
        | inl settles ↦ inr (req, decoded, ground arith)
        | inr unsettled ↦ inl (ground arith)
      ]
    ]
  ]

  paid_after_settled :
      (r : Request) (req : VerifyRequest) (o : Outcome MemoryNonceStore) (paid : List Authorization)
      → decode r.body ≡ ok req
      → paid_after r (some o) paid ≡ paid_by (auth req) o paid
  paid_after_settled r req o paid decoded = ground arith

  step-Reaches :
      (e : Event lib decode other) (s : MemoryNonceStore) (paid : List Authorization)
      → ReachesSparing lib (idle s paid)
      → ReachesSparing lib (idle (step lib decode other e s) (paid_step e s paid))
  step-Reaches (handles v r) s paid reached = elim (mux_outcome v new_writer r s) [
    | inl unsettled ↦ rw unsettled reached
    | inr (req, decoded, made) ↦
        rw (made, paid_after_settled r req (settle lib memory_store v req s) paid decoded)
          (settle-Reaches lib v req s paid reached)
  ]
  step-Reaches (collects now) s paid reached = then_collect now reached tt tt

  serve-Reaches :
      (events : List (Event lib decode other)) (s : MemoryNonceStore) (paid : List Authorization)
      → ReachesSparing lib (idle s paid)
      → ReachesSparing lib (idle (serve lib decode other events s) (paid_events events s paid))
  unfolding serve paid_events
  serve-Reaches [] s paid reached = reached
  serve-Reaches (e ∷ events) s paid reached =
      serve-Reaches events (step lib decode other e s) (paid_step e s paid)
        (step-Reaches e s paid reached)

  -- Let the facilitator start, and then handle any requests and make any rounds of the collector,
  -- one after another, whatever the clock and the chains say at each. Then at most one successful
  -- broadcast has been made for each key of the store.
  pub serve_pays_once :
      (net : Connections) (now : ℕ → Time) (env : Env) (addr : String) (v : Verifier)
      (s : MemoryNonceStore) (events : List (Event lib decode other)) (k : String)
      → facilitator_main net now env ≡ ok (addr, v, s)
      → count k (paid_events events s []) ≤ 1
  unfolding facilitator_main
  serve_pays_once net now env addr v s events k started =
      let empty : s ≡ [] = ground arith in
      paid_once_collecting lib (serve-Reaches events s [] (rw empty begin)) k
