-- ===== src/Interleave/Race.antt =====
-- Settlements in flight beside the collector.
use cosmos_pay.Prelude.{String, ◌≡◌, refl, sym, ap, true, false, eq_refl, List, [], ◌∷◌, arith}
use cosmos_pay.Clock.{Time, unix_time, after}
use cosmos_pay.Errors.{ok}
use cosmos_pay.Types.{Authorization, SettleRequest}
use cosmos_pay.Nonces.Table.{lookup}
use cosmos_pay.Nonces.Memory.{reserve, gc, memory_store, NonceState}
use cosmos_pay.Adr036.{SignLib}
use cosmos_pay.Verify.{Verifier, verify}
use cosmos_pay.Settle.Laws.{auth}
use cosmos_pay.Interleave.{
  System, enters, reserves, pays, collects, ReachesWithGc, begin, then_step, then_collect,
}
use cosmos_pay.Interleave.Count.{key, count}

-- the system after some steps of two settlements of one authorization
abbrev stage : List Authorization → List Authorization → List Authorization → System
stage entered paying paid = record {
  store = [];
  entered = entered;
  paying = paying;
  committing = paid;
  paid = paid;
}

reserved_entry : Authorization → String × NonceState
reserved_entry a =
    (key a, record { committed = false; tx_hash = ""; valid_before = unix_time a.valid_before })

-- The collector takes away the reservation of an authorization whose window has passed.
collected :
    (a : Authorization) (now : Time)
    → after now (unix_time a.valid_before) ≡ true
    → (gc now (reserved_entry a ∷ [])).1 ≡ []
unfolding gc reserved_entry
collected a now late = ground arith

-- If a request verifies on the empty in-memory store, and some time is after the end of its
-- window, then steps of settlements and one round of the collector at that time reach a system in
-- which two successful broadcasts have been made for the key of its authorization.
pub paid_twice :
    (lib : SignLib) (v : Verifier) (req : SettleRequest) (payer : String) (now : Time)
    → verify lib memory_store v req [] ≡ ok payer
    → after now (unix_time (auth req).valid_before) ≡ true
    → (x : System) × ReachesWithGc lib x × (count (key (auth req)) x.paid ≡ 2)
unfolding reserve lookup reserved_entry count
paid_twice lib v req payer now verified late =
    let a = auth req in
    let s₁ : System = stage (a ∷ []) [] [] in
    let s₂ : System = stage (a ∷ a ∷ []) [] [] in
    let s₃ : System = record s₂ {
      store = reserved_entry a ∷ [];
      entered = a ∷ [];
      paying = a ∷ [];
    } in
    let s₄ : System = stage (a ∷ []) (a ∷ []) [] in
    let s₅ : System = record s₄ {
      store = reserved_entry a ∷ [];
      entered = [];
      paying = a ∷ a ∷ [];
    } in
    let s₆ : System = record s₅ { paying = a ∷ []; committing = a ∷ []; paid = a ∷ [] } in
    let s₇ : System = record s₆ { paying = []; committing = a ∷ a ∷ []; paid = a ∷ a ∷ [] } in
    let r₁ : ReachesWithGc lib s₁ = then_step begin (enters v req payer verified refl) in
    let r₂ : ReachesWithGc lib s₂ = then_step r₁ (enters v req payer verified refl) in
    let r₃ : ReachesWithGc lib s₃ = then_step r₂ (reserves [] (a ∷ []) a refl refl refl) in
    let r₄ : ReachesWithGc lib s₄ =
      then_collect r₃
        (collects now (ap (λ m. record s₃ { store = m }) (sym (collected a now late)))) in
    let r₅ : ReachesWithGc lib s₅ = then_step r₄ (reserves [] [] a refl refl refl) in
    let r₆ : ReachesWithGc lib s₆ = then_step r₅ (pays [] (a ∷ []) a refl refl) in
    let r₇ : ReachesWithGc lib s₇ = then_step r₆ (pays [] [] a refl refl) in
    (s₇, r₇, ground (arith, eq_refl (key a)))
