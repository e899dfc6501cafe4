-- ===== src/Interleave.antt =====
-- Concurrent requests at the facilitator (facilitator/settle.go, store.go, cmd/main.go): every call
-- of /settle runs in a goroutine of its own, beside the collector. A method of the in-memory store
-- holds its mutex, so it is one step; between the steps of one settlement any others may happen.
-- What the node answers to a broadcast is the environment's choice.
pub mod Count
pub mod Safety
pub mod Race
pub mod Serial
pub mod Collector
use cosmos_pay.Prelude.{String, ◌≡◌, Option, none, some, List, [], ◌∷◌, ◌++◌, All, false}
use cosmos_pay.Clock.{Time, unix_time, after}
use cosmos_pay.Errors.{Error, ok}
use cosmos_pay.Types.{Authorization, SettleRequest}
use cosmos_pay.Nonces.Memory.{
  MemoryNonceStore, new_memory_nonce_store, reserve, commit, release, gc, memory_store,
}
use cosmos_pay.Adr036.{SignLib}
use cosmos_pay.Verify.{Verifier, verify}
use cosmos_pay.Settle.Laws.{auth}

-- The store, and the settlements in progress by where they stand: verified, reserved and waiting
-- for the broadcast, broadcast with success and before `Commit`. `paid` lists every successful
-- broadcast so far.
pub record System : Type 0 where
  pub store : MemoryNonceStore
  pub entered : List Authorization
  pub paying : List Authorization
  pub committing : List Authorization
  pub paid : List Authorization

abbrev pub start : System
start = record {
  store = new_memory_nonce_store;
  entered = [];
  paying = [];
  committing = [];
  paid = [];
}

abbrev pub reserve_for : Authorization → MemoryNonceStore → Option Error × MemoryNonceStore
reserve_for a m = reserve a.from a.chain_id a.nonce (unix_time a.valid_before) m

-- one step of a settlement; `before` and `behind` are the settlements around it in its list
pub data Step (lib : SignLib) (x y : System) : Type 0 where
  -- Verify succeeds, whatever the clock and the chain say
  enters :
      (v : Verifier) (req : SettleRequest) (payer : String)
      → verify lib memory_store v req x.store ≡ ok payer
      → y ≡ record x { entered = auth req ∷ x.entered }
      → Step lib x y
  -- Reserve finds the nonce used: the settlement ends
  refused :
      (before behind : List Authorization) (a : Authorization) (e : Error)
      → x.entered ≡ before ++ a ∷ behind
      → (reserve_for a x.store).0 ≡ some e
      → y ≡ record x { entered = before ++ behind }
      → Step lib x y
  reserves :
      (before behind : List Authorization) (a : Authorization)
      → x.entered ≡ before ++ a ∷ behind
      → (reserve_for a x.store).0 ≡ none
      → y ≡ record x {
        store = (reserve_for a x.store).1;
        entered = before ++ behind;
        paying = a ∷ x.paying;
      }
      → Step lib x y
  -- the broadcast reports success
  pays :
      (before behind : List Authorization) (a : Authorization)
      → x.paying ≡ before ++ a ∷ behind
      → y ≡ record x { paying = before ++ behind; committing = a ∷ x.committing; paid = a ∷ x.paid }
      → Step lib x y
  -- the broadcast reports an error: Release
  fails :
      (before behind : List Authorization) (a : Authorization)
      → x.paying ≡ before ++ a ∷ behind
      → y ≡ record x {
        store = (release a.from a.chain_id a.nonce x.store).1;
        paying = before ++ behind;
      }
      → Step lib x y
  -- Commit, whose error is dropped
  commits :
      (before behind : List Authorization) (a : Authorization) (tx_hash : String)
      → x.committing ≡ before ++ a ∷ behind
      → y ≡ record x {
        store = (commit a.from a.chain_id a.nonce tx_hash x.store).1;
        committing = before ++ behind;
      }
      → Step lib x y

-- a round of the collector
pub data Collect (x y : System) : Type 0 where
  collects : (now : Time) → y ≡ record x { store = (gc now x.store).1 } → Collect x y

-- the systems that settlements alone lead to
pub data Reaches (lib : SignLib) : System → Type 0 where
  begin : Reaches lib start
  then_step : {x y : System} → Reaches lib x → Step lib x y → Reaches lib y

-- the systems that settlements and the collector lead to
pub data ReachesWithGc (lib : SignLib) : System → Type 0 where
  begin : ReachesWithGc lib start
  then_step : {x y : System} → ReachesWithGc lib x → Step lib x y → ReachesWithGc lib y
  then_collect : {x y : System} → ReachesWithGc lib x → Collect x y → ReachesWithGc lib y

-- The collector spares the settlements in flight: none of their windows has passed.
abbrev pub IsSpared : Time → Authorization → Type 0
IsSpared now a = after now (unix_time a.valid_before) ≡ false

-- the systems that settlements and such rounds of the collector lead to
pub data ReachesSparing (lib : SignLib) : System → Type 0 where
  begin : ReachesSparing lib start
  then_step : {x y : System} → ReachesSparing lib x → Step lib x y → ReachesSparing lib y
  then_collect :
      {x : System} (now : Time)
      → ReachesSparing lib x
      → All (IsSpared now) x.paying
      → All (IsSpared now) x.committing
      → ReachesSparing lib (record x { store = (gc now x.store).1 })
