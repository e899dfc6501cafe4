-- ===== src/Nonces/Memory.antt =====
-- MemoryNonceStore of facilitator/store.go. The mutex makes each method one atomic step, so a
-- method is a function on the table; the map holds pointers, so `Commit` writes in place.
pub mod Laws
pub mod Sweep
use cosmos_pay.Prelude.{ℕ, String, Bool, true, false, not, ◌&&◌, Option, none, some, List, [], ◌∷◌}
use cosmos_pay.Clock.{Time, after}
use cosmos_pay.Errors.{Error, plain, nonce_used, Result, ok}
use cosmos_pay.Nonces.{NonceStore}
use cosmos_pay.Nonces.Key.{nonce_key}
use cosmos_pay.Nonces.Table.{lookup, replace, delete, sweep}

pub record NonceState : Type 0 where
  pub committed : Bool
  pub tx_hash : String
  pub valid_before : Time

abbrev pub MemoryNonceStore : Type 0
MemoryNonceStore = List (String × NonceState)

-- NewMemoryNonceStore()
abbrev pub new_memory_nonce_store : MemoryNonceStore
new_memory_nonce_store = []

unfoldable pub reserve :
    String → String → String → Time → MemoryNonceStore → Option Error × MemoryNonceStore
unfolding lookup
reserve payer chain_id nonce valid_before m =
    let k = nonce_key payer chain_id nonce in
    elim (lookup k m) [
      | some st ↦ (some nonce_used, m)
      | none ↦
          (none, (k, record { committed = false; tx_hash = ""; valid_before = valid_before }) ∷ m)
    ]

unfoldable pub commit :
    String → String → String → String → MemoryNonceStore → Option Error × MemoryNonceStore
unfolding lookup replace
commit payer chain_id nonce tx_hash m =
    let k = nonce_key payer chain_id nonce in
    elim (lookup k m) [
      | none ↦ (some (plain "commit without reserve"), m)
      | some st ↦ (none, replace k (record st { committed = true; tx_hash = tx_hash }) m)
    ]

-- the tail of `Release` once the entry is found
abbrev release_entry : String → NonceState → MemoryNonceStore → Option Error × MemoryNonceStore
release_entry k st m = elim st.committed [
  | true ↦ (some (plain "cannot release committed nonce"), m)
  | false ↦ (none, delete k m)
]

unfoldable pub release :
    String → String → String → MemoryNonceStore → Option Error × MemoryNonceStore
unfolding lookup delete
release payer chain_id nonce m =
    let k = nonce_key payer chain_id nonce in
    elim (lookup k m) [ none ↦ (none, m) | some st ↦ release_entry k st m ]

abbrev is_some {ℓ} : {A : Type ℓ} → Option A → Bool
is_some none = false
is_some (some a) = true

unfoldable pub exists : String → String → String → MemoryNonceStore → Result Bool
unfolding lookup
exists payer chain_id nonce m = ok (is_some (lookup (nonce_key payer chain_id nonce) m))

-- the test of `GC`
abbrev pub is_stale : Time → NonceState → Bool
is_stale now st = not st.committed && after now st.valid_before

unfoldable pub gc : Time → MemoryNonceStore → ℕ × MemoryNonceStore
unfolding sweep
gc now m = sweep (is_stale now) m

abbrev pub memory_store : NonceStore
memory_store = record {
  State = MemoryNonceStore;
  reserve = reserve;
  commit = commit;
  release = release;
  exists = exists;
}
