-- ===== src/Interleave/Collector.antt =====
-- Settlements in flight beside a collector that spares them.
pub mod Dated
use cosmos_pay.Prelude.{
  ℕ, ◌≤◌, String, ◌≡◌, ◌≢◌, ◌⊎◌, refl, ap, true, false, Bool-cases, ◌==◌, eq_iff, eq_refl, Option,
  none, some, Option-cases, inl, inr, List, [], ◌∷◌, ◌++◌, All, All-middle, All-map, All-zip, arith,
}
use cosmos_pay.Clock.{Time, unix_time}
use cosmos_pay.Types.{Authorization}
use cosmos_pay.Nonces.Table.{lookup, lookup-replace, lookup-delete, lookup-sweep, HasUniqueKeys}
use cosmos_pay.Nonces.Memory.{MemoryNonceStore, NonceState, reserve, commit, release, gc, is_stale}
use cosmos_pay.Nonces.Memory.Sweep
use cosmos_pay.Nonces.Memory.Sweep.{Step-HasUniqueKeys}
use cosmos_pay.Adr036.{SignLib}
use cosmos_pay.Interleave.{
  System, Step, enters, refused, reserves, pays, fails, commits, ReachesSparing, begin, then_step,
  then_collect, reserve_for, IsSpared,
}
use cosmos_pay.Interleave.Count.{key, count, count-middle}
use cosmos_pay.Interleave.Safety.{
  Balances, Balances-start, Step-Balances, pending_entry-le-one, at_key_self,
}
use cosmos_pay.Interleave.Collector.Dated.{
  IsDated, reserve-IsDated, reserved-IsDated, commit-IsDated, release-IsDated, All-other,
  some_counted,
}

-- the invariant
record IsKept (x : System) : Type 0 where
  balances : (k : String) → Balances x k
  unique : HasUniqueKeys x.store
  paying : All (IsDated x.store) x.paying
  committing : All (IsDated x.store) x.committing

zero_cases : (n : ℕ) → (n ≡ 0) ⊎ (n ≢ 0)
zero_cases n = ground arith

-- the entry of a settlement in flight that is spared is not stale
dated_not_stale :
    (now : Time) (m : MemoryNonceStore) (st : NonceState) (k : String) (a : Authorization)
    → lookup k m ≡ some st
    → key a ≡ k
    → IsDated m a × IsSpared now a
    → is_stale now st ≡ false
dated_not_stale now m st k a found same (d, s) = let d' = rw same at d in ground (arith, d')

module _ (x : System) (now : Time) (kept : IsKept x) (pay : All (IsSpared now) x.paying)
    (committed : All (IsSpared now) x.committing) where
  abbrev Dated : Authorization → Type 0
  Dated a = IsDated x.store a × IsSpared now a

  spared_entry :
      (k : String) (st : NonceState) → lookup k x.store ≡ some st → is_stale now st ≡ false
  spared_entry k st found = elim (Bool-cases st.committed) [
    | inl done ↦ ground arith
    | inr waiting ↦ elim (zero_cases (count k x.paying)) [
      | inr some_paying ↦
          let (a, same, d) =
            some_counted k Dated x.paying some_paying
              (All-zip (IsDated x.store) (IsSpared now) x.paying kept.paying pay) in
          dated_not_stale now x.store st k a found same d
      | inl no_paying ↦
          let (a, same, d) =
            some_counted k Dated x.committing (ground (arith, kept.balances k))
              (All-zip (IsDated x.store) (IsSpared now) x.committing kept.committing committed) in
          dated_not_stale now x.store st k a found same d
    ]
  ]

  lookup-gc : (k : String) → lookup k (gc now x.store).1 ≡ lookup k x.store
  unfolding gc
  lookup-gc k = elim (Option-cases (lookup k x.store)) [
    | inl missing ↦ ground (arith, lookup-sweep (is_stale now) k x.store kept.unique)
    | inr (st, found) ↦
        ground (arith, lookup-sweep (is_stale now) k x.store kept.unique, spared_entry k st found)
  ]

  collected-IsKept : IsKept (record x { store = (gc now x.store).1 })
  collected-IsKept =
      let m = (gc now x.store).1 in
      let dated : (a : Authorization) → IsDated x.store a → IsDated m a =
        λ a d. rw (lookup-gc (key a)) d in
      record {
        balances = λ k. record {
          in_flight = rw (lookup-gc k) (kept.balances k).in_flight;
          accounted = rw (lookup-gc k) (kept.balances k).accounted;
        };
        unique = Step-HasUniqueKeys (Sweep.collects now) kept.unique;
        paying = All-map (IsDated x.store) (IsDated m) dated x.paying kept.paying;
        committing = All-map (IsDated x.store) (IsDated m) dated x.committing kept.committing;
      }

-- beside a settlement in flight no other one stands under its key
module _ (x : System) (a : Authorization) (before behind : List Authorization)
    (b : (k : String) → Balances x k) where
  alone_paying :
      x.paying ≡ before ++ a ∷ behind
      → (count (key a) (before ++ behind) ≡ 0) × (count (key a) x.committing ≡ 0)
  alone_paying h = omega (
    arith,
    (b (key a)).in_flight,
    ap (count (key a)) h,
    count-middle (key a) a before behind,
    at_key_self a,
    pending_entry-le-one (lookup (key a) x.store),
  )

-- what a release leaves of the settlements that stand under other keys
released-IsDated :
    (a : Authorization) (m : MemoryNonceStore) (l : List Authorization)
    → count (key a) l ≡ 0
    → All (IsDated m) l
    → All (IsDated (release a.from a.chain_id a.nonce m).1) l
released-IsDated a m l none_there dated =
    let others = All-other (key a) l none_there in
    let m' = (release a.from a.chain_id a.nonce m).1 in
    All-map (λ b. (key b ≢ key a) × IsDated m b) (IsDated m')
      (λ b (other, d). release-IsDated a b m other d) l
      (All-zip (λ b. key b ≢ key a) (IsDated m) l others dated)

module _ (lib : SignLib) where
  Step-IsKept : {x y : System} → Step lib x y → IsKept x → IsKept y
  Step-IsKept (enters v req payer h e) kept = record {
    balances = λ k. Step-Balances lib k kept.balances (enters v req payer h e);
    unique = rw e kept.unique;
    paying = rw e kept.paying;
    committing = rw e kept.committing;
  }
  Step-IsKept (refused before behind a err h f e) kept = record {
    balances = λ k. Step-Balances lib k kept.balances (refused before behind a err h f e);
    unique = rw e kept.unique;
    paying = rw e kept.paying;
    committing = rw e kept.committing;
  }
  Step-IsKept {x} (reserves before behind a h f e) kept =
      let m = (reserve_for a x.store).1 in
      let dated : (b : Authorization) → IsDated x.store b → IsDated m b =
        λ b d. reserve-IsDated a b x.store f d in
      record {
        balances = λ k. Step-Balances lib k kept.balances (reserves before behind a h f e);
        unique = rw e (
            Step-HasUniqueKeys (Sweep.reserves a.from a.chain_id a.nonce (unix_time a.valid_before))
              kept.unique);
        paying = rw e (
          reserved-IsDated a x.store f,
          All-map (IsDated x.store) (IsDated m) dated x.paying kept.paying,
        );
        committing =
            rw e (All-map (IsDated x.store) (IsDated m) dated x.committing kept.committing);
      }
  Step-IsKept {x} (pays before behind a h e) kept =
      let (here, rest) = All-middle (IsDated x.store) before behind a (rw h at kept.paying) in
      record {
        balances = λ k. Step-Balances lib k kept.balances (pays before behind a h e);
        unique = rw e kept.unique;
        paying = rw e rest;
        committing = rw e (here, kept.committing);
      }
  Step-IsKept {x} (fails before behind a h e) kept =
      let (here, rest) = All-middle (IsDated x.store) before behind a (rw h at kept.paying) in
      let (paying, committing) = alone_paying x a before behind kept.balances h in
      record {
        balances = λ k. Step-Balances lib k kept.balances (fails before behind a h e);
        unique = rw e (Step-HasUniqueKeys (Sweep.releases a.from a.chain_id a.nonce) kept.unique);
        paying = rw e (released-IsDated a x.store (before ++ behind) paying rest);
        committing = rw e (released-IsDated a x.store x.committing committing kept.committing);
      }
  Step-IsKept {x} (commits before behind a tx_hash h e) kept =
      let (here, rest) = All-middle (IsDated x.store) before behind a (rw h at kept.committing) in
      let m = (commit a.from a.chain_id a.nonce tx_hash x.store).1 in
      let dated : (b : Authorization) → IsDated x.store b → IsDated m b =
        λ b d. commit-IsDated a b tx_hash x.store d in
      record {
        balances = λ k. Step-Balances lib k kept.balances (commits before behind a tx_hash h e);
        unique =
            rw e (Step-HasUniqueKeys (Sweep.commits a.from a.chain_id a.nonce tx_hash) kept.unique);
        paying = rw e (All-map (IsDated x.store) (IsDated m) dated x.paying kept.paying);
        committing = rw e (All-map (IsDated x.store) (IsDated m) dated (before ++ behind) rest);
      }

  Reaches-IsKept : {x : System} → ReachesSparing lib x → IsKept x
  Reaches-IsKept begin = record {
    balances = Balances-start;
    unique = tt;
    paying = tt;
    committing = tt;
  }
  Reaches-IsKept (then_step r s) = Step-IsKept s (Reaches-IsKept r)
  Reaches-IsKept (then_collect {x} now r pay committed) =
      collected-IsKept x now (Reaches-IsKept r) pay committed

  -- In every system that steps of settlements and rounds of the collector reach from the empty
  -- in-memory store, in any interleaving in which no round comes after the end of the window of a
  -- settlement in flight, at most one successful broadcast has been made for each key of the
  -- store.
  pub paid_once_collecting : {x : System} → ReachesSparing lib x → (k : String) → count k x.paid ≤ 1
  paid_once_collecting {x} r k = omega (
    arith,
    ((Reaches-IsKept r).balances k).in_flight,
    ((Reaches-IsKept r).balances k).accounted,
    pending_entry-le-one (lookup k x.store),
  )
