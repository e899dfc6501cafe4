-- ===== src/Interleave/Count.antt =====
-- How many settlements of a list stand under one key of the store.
use cosmos_pay.Prelude.{
  ℕ, ◌+◌, String, ◌≡◌, ◌==◌, Option, none, some, List, [], ◌∷◌, ◌++◌, arith, if◌then◌else◌,
}
use cosmos_pay.Types.{Authorization}
use cosmos_pay.Nonces.Key.{nonce_key}
use cosmos_pay.Nonces.Memory.{NonceState}

abbrev pub key : Authorization → String
key a = nonce_key a.from a.chain_id a.nonce

-- 1 for the key itself
abbrev pub at_key : String → Authorization → ℕ
at_key k a = if key a == k then 1 else 0

unfoldable pub count : String → List Authorization → ℕ
count k [] = 0
count k (a ∷ l) = at_key k a + count k l

pub count-middle :
    (k : String) (a : Authorization) (before behind : List Authorization)
    → count k (before ++ a ∷ behind) ≡ at_key k a + count k (before ++ behind)
unfolding count
count-middle k a [] behind = omega arith
count-middle k a (b ∷ before) behind = omega (arith, count-middle k a before behind)

-- 1 for an entry that is pending, and 1 for one that is committed
abbrev pub pending_entry : Option NonceState → ℕ
pending_entry none = 0
pending_entry (some st) = if st.committed then 0 else 1

abbrev pub committed_entry : Option NonceState → ℕ
committed_entry none = 0
committed_entry (some st) = if st.committed then 1 else 0
