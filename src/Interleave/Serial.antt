-- ===== src/Interleave/Serial.antt =====
-- facilitator/settle.go: one whole call of Settle, beside no other, as steps of the relation.
use cosmos_pay.Prelude.{
  String, ◌≡◌, refl, Option, none, some, inl, inr, List, [], ◌∷◌, false, arith,
}
use cosmos_pay.Errors.{Error, ok}
use cosmos_pay.Types.{Authorization, SettleRequest}
use cosmos_pay.Nonces.Memory.{MemoryNonceStore, memory_store, reserve, exists}
use cosmos_pay.Nonces.Memory.Laws.{memory_contract}
use cosmos_pay.Adr036.{SignLib}
use cosmos_pay.Verify.{Verifier}
use cosmos_pay.Verify.Laws.{verify_complete}
use cosmos_pay.Settle.{Broadcast, Outcome, finish, settle}
use cosmos_pay.Settle.Laws.{auth, state_of, sent_of, settle_cases, settle_verified}
use cosmos_pay.Interleave.{
  System, reserve_for, ReachesSparing, then_step, enters, reserves, pays, fails, commits,
}

-- no settlement in progress
abbrev pub idle : MemoryNonceStore → List Authorization → System
idle store paid = record { store = store; entered = []; paying = []; committing = []; paid = paid }

-- the authorizations that were paid, after a broadcast for one more
abbrev paid_with : Authorization → Option Broadcast → List Authorization → List Authorization
paid_with a none paid = paid
paid_with a (some b) paid = elim b.error [ none ↦ a ∷ paid | some e ↦ paid ]

-- the same after a settlement
abbrev pub paid_by :
    Authorization → Outcome MemoryNonceStore → List Authorization → List Authorization
paid_by a o paid = paid_with a (sent_of o) paid

module _ (lib : SignLib) where
  reserve_unseen :
      (a : Authorization) (m : MemoryNonceStore)
      → exists a.from a.chain_id a.nonce m ≡ ok false
      → (reserve_for a m).0 ≡ none
  unfolding exists reserve
  reserve_unseen a m h = ground arith

  -- from the verified payment to the end of the settlement
  finish-Reaches :
      (req : SettleRequest) (network payer : String) (s : MemoryNonceStore)
      (paid : List Authorization) (answer : String × Option Error)
      → ReachesSparing lib
          (record (idle (reserve_for (auth req) s).1 paid) { paying = auth req ∷ [] })
      → ReachesSparing lib (
          idle
            (state_of
              (finish memory_store (auth req) network payer answer (reserve_for (auth req) s).1))
            (paid_by
              (auth req)
              (finish memory_store (auth req) network payer answer (reserve_for (auth req) s).1)
              paid))
  unfolding finish
  finish-Reaches req network payer s paid (tx_hash, none) r =
      let a = auth req in
      let r₁ : ReachesSparing lib
          (record (idle (reserve_for a s).1 (a ∷ paid)) { committing = a ∷ [] }) =
        then_step r (pays [] [] a refl refl) in
      then_step r₁ (commits [] [] a tx_hash refl refl)
  finish-Reaches req network payer s paid (tx_hash, some e) r =
      then_step r (fails [] [] (auth req) refl refl)

  -- A settlement that runs while no other is in progress leads from one reached system to
  -- another: its store is the settlement's, and its authorization is added to the payments
  -- exactly if its broadcast reported success.
  pub settle-Reaches :
      (v : Verifier) (req : SettleRequest) (s : MemoryNonceStore) (paid : List Authorization)
      → ReachesSparing lib (idle s paid)
      → ReachesSparing lib (
          idle
            (state_of (settle lib memory_store v req s))
            (paid_by (auth req) (settle lib memory_store v req s) paid))
  settle-Reaches v req s paid r = elim (settle_cases lib memory_store memory_contract v req s) [
    | inl (e, refused, _) ↦ rw refused r
    | inr w ↦
        let a = auth req in
        let r₁ : ReachesSparing lib (record (idle s paid) { entered = a ∷ [] }) =
          then_step r (enters v req a.from (verify_complete lib memory_store v req s w) refl) in
        let r₂ : ReachesSparing lib (record (idle (reserve_for a s).1 paid) { paying = a ∷ [] }) =
          then_step r₁ (reserves [] [] a refl (reserve_unseen a s w.fresh) refl) in
        rw (settle_verified lib memory_store memory_contract v req s w) (
          finish-Reaches req req.payment_payload.network a.from s paid
            (w.client.broadcast_authz_send a.from a.to a.denom a.amount) r₂)
  ]
