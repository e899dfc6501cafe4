-- ===== src/Interleave/Safety.antt =====
-- The balance of the store and the settlements in flight, without the collector.
use cosmos_pay.Prelude.{
  ◌+◌, ◌≤◌, String, ◌≡◌, ap, true, eq_iff, eq_refl, Option, none, Option-cases, inl, inr, List, ◌∷◌,
  ◌++◌, arith,
}
use cosmos_pay.Types.{Authorization}
use cosmos_pay.Nonces.Table.{lookup, lookup-replace, lookup-delete}
use cosmos_pay.Nonces.Memory.{MemoryNonceStore, NonceState, reserve, commit, release}
use cosmos_pay.Adr036.{SignLib}
use cosmos_pay.Interleave.{
  System, start, Step, enters, refused, reserves, pays, fails, commits, Reaches, begin, then_step,
  reserve_for,
}
use cosmos_pay.Interleave.Count.{key, at_key, count, count-middle, pending_entry, committed_entry}

-- The books of one key: a pending entry for each settlement in flight, and a payment for each one
-- that is being committed or is committed.
pub record Balances (x : System) (k : String) : Type 0 where
  pub in_flight : count k x.paying + count k x.committing ≡ pending_entry (lookup k x.store)
  pub accounted : count k x.paid ≡ count k x.committing + committed_entry (lookup k x.store)

pub Balances-start : (k : String) → Balances start k
unfolding count lookup
Balances-start k = omega arith

pub pending_entry-le-one : (o : Option NonceState) → pending_entry o + committed_entry o ≤ 1
pending_entry-le-one o = ground arith

module _ (a : Authorization) (m : MemoryNonceStore) (k : String) where
  -- A reservation adds a pending entry under its key.
  reserve_books :
      (reserve_for a m).0 ≡ none
      → (pending_entry (lookup k (reserve_for a m).1) ≡ at_key k a + pending_entry (lookup k m))
        × (committed_entry (lookup k (reserve_for a m).1) ≡ committed_entry (lookup k m))
  unfolding reserve lookup
  reserve_books h = ground (arith, eq_iff (key a) k)

  -- A release takes a pending entry away.
  release_books :
      pending_entry (lookup (key a) m) ≡ 1
      → let m' = (release a.from a.chain_id a.nonce m).1 in
        (at_key k a + pending_entry (lookup k m') ≡ pending_entry (lookup k m))
        × (committed_entry (lookup k m') ≡ committed_entry (lookup k m))
  unfolding release
  release_books h = ground (arith, lookup-delete (key a) k m, eq_iff (key a) k)

  -- A commit turns a pending entry into a committed one.
  commit_books :
      (tx_hash : String)
      → pending_entry (lookup (key a) m) ≡ 1
      → let m' = (commit a.from a.chain_id a.nonce tx_hash m).1 in
        (at_key k a + pending_entry (lookup k m') ≡ pending_entry (lookup k m))
        × (committed_entry (lookup k m') ≡ at_key k a + committed_entry (lookup k m))
  unfolding commit
  commit_books tx_hash h = elim (Option-cases (lookup (key a) m)) [
    | inl missing ↦ absurd (ground arith)
    | inr (st, found) ↦ ground (
      arith,
      lookup-replace (key a) k (record st { committed = true; tx_hash = tx_hash }) st m found,
      eq_iff (key a) k,
    )
  ]

pub at_key_self : (a : Authorization) → at_key (key a) a ≡ 1
at_key_self a = ground (arith, eq_refl (key a))

module _ (x : System) (a : Authorization) (before behind : List Authorization)
    (b : (k : String) → Balances x k) where
  in_flight_paying : x.paying ≡ before ++ a ∷ behind → pending_entry (lookup (key a) x.store) ≡ 1
  in_flight_paying h = omega (
    arith,
    (b (key a)).in_flight,
    ap (count (key a)) h,
    count-middle (key a) a before behind,
    at_key_self a,
    pending_entry-le-one (lookup (key a) x.store),
  )

  in_flight_committing :
      x.committing ≡ before ++ a ∷ behind → pending_entry (lookup (key a) x.store) ≡ 1
  in_flight_committing h = omega (
    arith,
    (b (key a)).in_flight,
    ap (count (key a)) h,
    count-middle (key a) a before behind,
    at_key_self a,
    pending_entry-le-one (lookup (key a) x.store),
  )

-- Every step of a settlement keeps the books of every key.
pub Step-Balances :
    (lib : SignLib) {x y : System} (k : String)
    → ((j : String) → Balances x j)
    → Step lib x y
    → Balances y k
unfolding count
Step-Balances lib k b (enters v req payer h e) = rw e (ground (arith, b k))
Step-Balances lib k b (refused before behind a err h f e) = rw e (ground (arith, b k))
Step-Balances lib {x} k b (reserves before behind a h f e) =
    rw e (ground (arith, b k, reserve_books a x.store k f))
Step-Balances lib {x} k b (pays before behind a h e) =
    rw e (ground (arith, b k, ap (count k) h, count-middle k a before behind))
Step-Balances lib {x} k b (fails before behind a h e) = rw e (
    ground (
      arith,
      b k,
      ap (count k) h,
      count-middle k a before behind,
      release_books a x.store k (in_flight_paying x a before behind b h),
    ))
Step-Balances lib {x} k b (commits before behind a tx_hash h e) = rw e (
    ground (
      arith,
      b k,
      ap (count k) h,
      count-middle k a before behind,
      commit_books a x.store k tx_hash (in_flight_committing x a before behind b h),
    ))

-- In every system that settlements lead to, in any order of their steps, the books of every key
-- balance: a pending entry for each settlement in flight, one payment for each committed entry.
pub Reaches-Balances : (lib : SignLib) {x : System} → Reaches lib x → (k : String) → Balances x k
Reaches-Balances lib begin k = Balances-start k
Reaches-Balances lib (then_step r s) k = Step-Balances lib k (Reaches-Balances lib r) s

-- In every system that steps of settlements reach from the empty in-memory store, in any
-- interleaving and without the collector, at most one successful broadcast has been made for each
-- key of the store.
pub paid_once : (lib : SignLib) {x : System} → Reaches lib x → (k : String) → count k x.paid ≤ 1
paid_once lib {x} r k = omega (
  arith,
  (Reaches-Balances lib r k).in_flight,
  (Reaches-Balances lib r k).accounted,
  pending_entry-le-one (lookup k x.store),
)
