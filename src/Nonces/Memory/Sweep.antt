-- ===== src/Nonces/Memory/Sweep.antt =====
-- GC of facilitator/store.go, and sequences of the methods of the in-memory store.
use cosmos_pay.Prelude.{◌+◌, String, ◌≡◌, Option, none, some, arith, length, if◌then◌else◌}
use cosmos_pay.Clock.{Time, after}
use cosmos_pay.Nonces.Key.{nonce_key}
use cosmos_pay.Nonces.Table.{
  HasUniqueKeys, lookup-sweep, replace-HasUniqueKeys, delete-HasUniqueKeys, sweep-HasUniqueKeys,
  length-sweep,
}
use cosmos_pay.Nonces.Contract.{Status, pending}
use cosmos_pay.Nonces.Memory.{
  MemoryNonceStore, new_memory_nonce_store, reserve, commit, release, is_stale, gc,
}
use cosmos_pay.Nonces.Memory.Laws.{view}

-- what is left of an entry after a collection at `now`
abbrev pub swept : Time → Option Status → Option Status
swept now (some (pending until)) = if after now until then none else some (pending until)
swept now other = other

-- On a store with each key once, a round of the collector leaves a triple unseen if it was a
-- pending reservation whose end the time is after, and as it was otherwise.
pub view-gc :
    (now : Time) (m : MemoryNonceStore) (p c n : String)
    → HasUniqueKeys m
    → view (gc now m).1 p c n ≡ swept now (view m p c n)
unfolding gc view
view-gc now m p c n u = rw (lookup-sweep (is_stale now) (nonce_key p c n) m u) (ground arith)

-- The number that a round of the collector returns is the number of entries that it removed.
pub length-gc : (now : Time) (m : MemoryNonceStore) → (gc now m).0 + length (gc now m).1 ≡ length m
unfolding gc
length-gc now m = length-sweep (is_stale now) m

-- one method call on the store, or one collection
pub data Step (m : MemoryNonceStore) : MemoryNonceStore → Type 0 where
  reserves : (p c n : String) (until : Time) → Step m (reserve p c n until m).1
  commits : (p c n tx_hash : String) → Step m (commit p c n tx_hash m).1
  releases : (p c n : String) → Step m (release p c n m).1
  collects : (now : Time) → Step m (gc now m).1

pub data Reaches : MemoryNonceStore → Type 0 where
  fresh : Reaches new_memory_nonce_store
  then_step : {m m' : MemoryNonceStore} → Reaches m → Step m m' → Reaches m'

pub Step-HasUniqueKeys : {m m' : MemoryNonceStore} → Step m m' → HasUniqueKeys m → HasUniqueKeys m'
unfolding reserve commit release gc
Step-HasUniqueKeys {m} (reserves p c n until) u = ground arith
Step-HasUniqueKeys {m} (commits p c n tx_hash) u = grind (arith, replace-HasUniqueKeys)
Step-HasUniqueKeys {m} (releases p c n) u =
    ground (arith, delete-HasUniqueKeys (nonce_key p c n) m u)
Step-HasUniqueKeys {m} (collects now) u = sweep-HasUniqueKeys (is_stale now) m u

-- In every store that calls of its methods and rounds of the collector produce from the empty
-- store, in any order, each key stands once.
pub Reaches-HasUniqueKeys : {m : MemoryNonceStore} → Reaches m → HasUniqueKeys m
Reaches-HasUniqueKeys fresh = tt
Reaches-HasUniqueKeys (then_step r s) = Step-HasUniqueKeys s (Reaches-HasUniqueKeys r)
