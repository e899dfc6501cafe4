-- ===== src/Interleave/Collector/Dated.antt =====
-- The entries of settlements in flight, and the ends of their windows.
use cosmos_pay.Prelude.{
  String, ◌≡◌, ◌≢◌, refl, true, Bool-cases, ◌==◌, eq_iff, eq_refl, Option, none, some, Option-cases,
  inl, inr, List, [], ◌∷◌, All, arith,
}
use cosmos_pay.Clock.{Time, unix_time}
use cosmos_pay.Types.{Authorization}
use cosmos_pay.Nonces.Table.{lookup, lookup-replace, lookup-delete}
use cosmos_pay.Nonces.Memory.{MemoryNonceStore, NonceState, reserve, commit, release}
use cosmos_pay.Interleave.{reserve_for}
use cosmos_pay.Interleave.Count.{key, count}

abbrev pub until_of : Option NonceState → Option Time
until_of none = none
until_of (some st) = some st.valid_before

-- The entry of the authorization's key ends with the authorization's window.
abbrev pub IsDated : MemoryNonceStore → Authorization → Type 0
IsDated m a = until_of (lookup (key a) m) ≡ some (unix_time a.valid_before)

pub reserve-IsDated :
    (a b : Authorization) (m : MemoryNonceStore)
    → (reserve_for a m).0 ≡ none
    → IsDated m b
    → IsDated (reserve_for a m).1 b
unfolding reserve lookup
reserve-IsDated a b m h d = ground (arith, eq_iff (key a) (key b))

pub reserved-IsDated :
    (a : Authorization) (m : MemoryNonceStore)
    → (reserve_for a m).0 ≡ none
    → IsDated (reserve_for a m).1 a
unfolding reserve lookup
reserved-IsDated a m h = ground (arith, eq_refl (key a))

pub commit-IsDated :
    (a b : Authorization) (tx_hash : String) (m : MemoryNonceStore)
    → IsDated m b
    → IsDated (commit a.from a.chain_id a.nonce tx_hash m).1 b
unfolding commit
commit-IsDated a b tx_hash m d = elim (Option-cases (lookup (key a) m)) [
  | inl missing ↦ ground arith
  | inr (st, found) ↦ ground (
    arith,
    lookup-replace (key a) (key b) (record st { committed = true; tx_hash = tx_hash }) st m found,
    eq_iff (key a) (key b),
  )
]

pub release-IsDated :
    (a b : Authorization) (m : MemoryNonceStore)
    → key b ≢ key a
    → IsDated m b
    → IsDated (release a.from a.chain_id a.nonce m).1 b
unfolding release
release-IsDated a b m other d =
    ground (arith, lookup-delete (key a) (key b) m, eq_iff (key a) (key b))

-- no settlement of the list stands under the key
pub All-other : (k : String) (l : List Authorization) → count k l ≡ 0 → All (λ b. key b ≢ k) l
unfolding count
All-other k [] h = tt
All-other k (b ∷ l) h = (ground (arith, eq_iff (key b) k), All-other k l (omega (arith, h)))

pub some_counted :
    (k : String) (P : Authorization → Type 0) (l : List Authorization)
    → count k l ≢ 0
    → All P l
    → (a : Authorization) × (key a ≡ k) × P a
unfolding count
some_counted k P [] h p = absurd (h refl)
some_counted k P (b ∷ l) h p = elim (Bool-cases (key b == k)) [
  | inl e ↦ (b, (eq_iff (key b) k).0 e, p.0)
  | inr e ↦ some_counted k P l (ground arith) p.1
]
