-- ===== src/Examples/Stores.antt =====
-- The theorems on the nonce store and on concurrent settlements, at concrete stores and steps.
use Prim.Native.String.{◌++◌}
use cosmos_pay.Prelude.{◌≤◌, ◌≡◌, ◌==◌, refl, false, [], ◌∷◌, arith}
use cosmos_pay.Clock.{unix_time}
use cosmos_pay.Types.{Authorization}
use cosmos_pay.Nonces.Key.{LacksBar, nonce_key, nonce_key-same_triple, nonce_key_collision}
use cosmos_pay.Nonces.Memory.{MemoryNonceStore, reserve, commit, gc}
use cosmos_pay.Nonces.Memory.Laws.{view}
use cosmos_pay.Nonces.Memory.Sweep
use cosmos_pay.Settle.Laws.{auth}
use cosmos_pay.Interleave.{
  System, start, reserve_for, enters, reserves, pays, ReachesSparing, begin, then_step,
  then_collect, ReachesWithGc,
}
use cosmos_pay.Interleave.Count.{key, count}
use cosmos_pay.Interleave.Collector.{paid_once_collecting}
use cosmos_pay.Interleave.Race.{paid_twice}
use cosmos_pay.Examples.Scenario.{toy_lib, request_of, verifier_at, accepted}
use cosmos_pay.Examples.Runs.{running, verify_runs}

-- one reservation, committed, and a second one that is not
abbrev two_entries : MemoryNonceStore
two_entries =
    (reserve "noble1payer" "grand-1" "0x02" (unix_time 1716700060)
      (commit "noble1payer" "grand-1" "0x01" "ABCD"
        (reserve "noble1payer" "grand-1" "0x01" (unix_time 1716700060) []).1).1).1

two_entries-Reaches : Sweep.Reaches two_entries
two_entries-Reaches =
    Sweep.then_step
      (Sweep.then_step
        (Sweep.then_step Sweep.fresh
          (Sweep.reserves "noble1payer" "grand-1" "0x01" (unix_time 1716700060)))
        (Sweep.commits "noble1payer" "grand-1" "0x01" "ABCD"))
      (Sweep.reserves "noble1payer" "grand-1" "0x02" (unix_time 1716700060))

view-gc_example :
    view (gc (unix_time 1716700061) two_entries).1 "noble1payer" "grand-1" "0x02"
    ≡ Sweep.swept (unix_time 1716700061) (view two_entries "noble1payer" "grand-1" "0x02")
view-gc_example =
    Sweep.view-gc (unix_time 1716700061) two_entries "noble1payer" "grand-1" "0x02"
      (Sweep.Reaches-HasUniqueKeys two_entries-Reaches)

gc_run : (gc (unix_time 1716700061) two_entries).0 ≡ 1
unfolding running gc
gc_run = refl

payer-LacksBar : LacksBar "noble1payer"
payer-LacksBar = ground arith

chain-LacksBar : LacksBar "grand-1"
chain-LacksBar = ground arith

nonce_key-same_triple_example :
    (nonce_key "noble1payer" "grand-1" "0x01" == nonce_key "noble1payer" "grand-1" "0x02") ≡ false
nonce_key-same_triple_example =
    nonce_key-same_triple "noble1payer" "grand-1" "0x01" "noble1payer" "grand-1" "0x02"
      payer-LacksBar chain-LacksBar payer-LacksBar chain-LacksBar

nonce_key_collision_example :
    nonce_key ("noble1payer" ++ "|" ++ "x") "grand-1" "0x01"
    ≡ nonce_key "noble1payer" ("x" ++ "|" ++ "grand-1") "0x01"
nonce_key_collision_example = nonce_key_collision "noble1payer" "grand-1" "0x01" "x"

abbrev bought : Authorization
bought = auth (request_of "10000" "0x01")

abbrev paying_system : System
paying_system = record start { store = (reserve_for bought []).1; paying = bought ∷ [] }

-- one settlement up to its broadcast, with a round of the collector while it is in flight
one_payment : ReachesSparing toy_lib (record {
  store = (gc (unix_time 1716700050) (reserve_for bought []).1).1;
  entered = [];
  paying = [];
  committing = bought ∷ [];
  paid = bought ∷ [];
})
unfolding running gc
one_payment =
    let s₁ : System = record start { entered = bought ∷ [] } in
    let r₁ : ReachesSparing toy_lib s₁ = then_step begin (
      enters (verifier_at 1716700010 accepted) (request_of "10000" "0x01") "noble1payer"
        verify_runs.0 refl) in
    let r₂ : ReachesSparing toy_lib paying_system =
      then_step r₁ (reserves [] [] bought refl refl refl) in
    let r₃ : ReachesSparing toy_lib
        (record paying_system { store = (gc (unix_time 1716700050) paying_system.store).1 }) =
      then_collect (unix_time 1716700050) r₂ (refl, tt) tt in
    then_step r₃ (pays [] [] bought refl refl)

paid_once_collecting_example : count (key bought) (bought ∷ []) ≤ 1
paid_once_collecting_example = paid_once_collecting toy_lib one_payment (key bought)

paid_twice_example : (x : System) × ReachesWithGc toy_lib x × (count (key bought) x.paid ≡ 2)
paid_twice_example =
    paid_twice toy_lib (verifier_at 1716700010 accepted) (request_of "10000" "0x01") "noble1payer"
      (unix_time 1716700061) verify_runs.0 refl
