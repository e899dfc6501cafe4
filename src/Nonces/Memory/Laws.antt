-- ===== src/Nonces/Memory/Laws.antt =====
-- The methods of the in-memory store of facilitator/store.go, seen as a map from triples to
-- statuses.
use cosmos_pay.Prelude.{String, ◌≡◌, not, eq_iff, Option, none, some, arith, if◌then◌else◌}
use cosmos_pay.Clock.{Time}
use cosmos_pay.Errors.{ok}
use cosmos_pay.Nonces.Key.{LacksBar, nonce_key, same_triple, nonce_key-same_triple}
use cosmos_pay.Nonces.Table.{lookup, lookup-replace, lookup-delete}
use cosmos_pay.Nonces.Contract.{
  Status, pending, consumed, is_seen, reserved, committed, released, reserve_error, fails,
  is_consumed, Contract,
}
use cosmos_pay.Nonces.Memory.{
  NonceState, MemoryNonceStore, reserve, commit, release, exists, memory_store,
}

abbrev pub status_of : Option NonceState → Option Status
status_of none = none
status_of (some st) =
    if st.committed then some (consumed st.tx_hash) else some (pending st.valid_before)

unfoldable pub view : MemoryNonceStore → String → String → String → Option Status
view m p c n = status_of (lookup (nonce_key p c n) m)

module _ (m : MemoryNonceStore) (p c n : String) where
  exists_law : exists p c n m ≡ ok (is_seen (view m p c n))
  unfolding exists view
  exists_law = ground arith

  reserve_law : (until : Time) → (reserve p c n until m).0 ≡ reserve_error (view m p c n)
  unfolding reserve view
  reserve_law until = ground arith

  commit_law : (tx_hash : String) → fails (commit p c n tx_hash m).0 ≡ not (is_seen (view m p c n))
  unfolding commit view
  commit_law tx_hash = ground arith

  release_law : fails (release p c n m).0 ≡ is_consumed (view m p c n)
  unfolding release view
  release_law = ground arith

  module _ (q d o : String) where
    view-reserve :
        (until : Time)
        → LacksBar p
        → LacksBar c
        → LacksBar q
        → LacksBar d
        → view (reserve p c n until m).1 q d o
          ≡ (if same_triple p c n q d o then reserved until (view m q d o) else view m q d o)
    unfolding reserve view lookup
    view-reserve until hp hc hq hd =
        rw (← nonce_key-same_triple p c n q d o hp hc hq hd)
          (ground (arith, eq_iff (nonce_key p c n) (nonce_key q d o)))

    view-commit :
        (tx_hash : String)
        → LacksBar p
        → LacksBar c
        → LacksBar q
        → LacksBar d
        → view (commit p c n tx_hash m).1 q d o
          ≡ (if same_triple p c n q d o then committed tx_hash (view m q d o) else view m q d o)
    unfolding commit view
    view-commit tx_hash hp hc hq hd =
        rw (← nonce_key-same_triple p c n q d o hp hc hq hd)
          (grind (arith, lookup-replace, eq_iff (nonce_key p c n) (nonce_key q d o)))

    view-release :
        LacksBar p
        → LacksBar c
        → LacksBar q
        → LacksBar d
        → view (release p c n m).1 q d o
          ≡ (if same_triple p c n q d o then released (view m q d o) else view m q d o)
    unfolding release view
    view-release hp hc hq hd = rw (← nonce_key-same_triple p c n q d o hp hc hq hd) (
        ground (
          arith,
          lookup-delete (nonce_key p c n) (nonce_key q d o) m,
          eq_iff (nonce_key p c n) (nonce_key q d o),
        ))

-- The in-memory store keeps the contract of a nonce store: each of its methods returns what the
-- status of the triple says, and changes the status of that triple only, as the life cycle in the
-- source says, for payers and chain ids without a "|".
pub memory_contract : Contract memory_store
memory_contract = record {
  view = view;
  exists_law = exists_law;
  reserve_law = reserve_law;
  commit_law = commit_law;
  release_law = release_law;
  view-reserve = λ s p c n q d m until. view-reserve s p c n q d m until;
  view-commit = λ s p c n tx_hash q d m. view-commit s p c n q d m tx_hash;
  view-release = view-release;
}
