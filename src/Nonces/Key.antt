-- ===== src/Nonces/Key.antt =====
-- nonceKey of facilitator/store.go.
use Prim.Native.String.{◌++◌}
use text.Mathlib.TextLemmas.{nil-append, cons-append, append_assoc}
use cosmos_pay.Prelude.{String, Bool, ◌≡◌, ap, ◌∙◌, ◌==◌, ◌&&◌, eq_iff, arith}
use cosmos_pay.Prelude.Text.{Lacks, split_unique}

-- nonceKey(payer, chainID, nonce)
unfoldable pub nonce_key : String → String → String → String
nonce_key payer chain_id nonce = payer ++ "|" ++ chain_id ++ "|" ++ nonce

-- no separator in it
abbrev pub LacksBar : String → Type 0
LacksBar s = Lacks b'|' s

bar-append : (s : String) → "|" ++ s ≡ String.◌∷◌ "|" s
bar-append s = cons-append "|" "" s ∙ ap (λ t. String.◌∷◌ "|" t) (nil-append s)

-- Two triples whose payers and chain ids hold no "|" have one key only if they are one triple.
pub nonce_key_injective :
    (p c n q d m : String)
    → LacksBar p
    → LacksBar c
    → LacksBar q
    → LacksBar d
    → nonce_key p c n ≡ nonce_key q d m
    → (p ≡ q) × (c ≡ d) × (n ≡ m)
unfolding nonce_key
nonce_key_injective p c n q d m hp hc hq hd h =
    let tail = λ (a b : String). a ++ String.◌∷◌ "|" b in
    let (payers, rests) = split_unique "|" p q (tail c n) (tail d m) hp hq (simp bar-append at h) in
    let (chains, nonces) = split_unique "|" c d n m hc hd rests in (payers, chains, nonces)

-- the same triple
abbrev pub same_triple : String → String → String → String → String → String → Bool
same_triple p c n q d m = p == q && c == d && n == m

-- For payers and chain ids without a "|", two keys are equal exactly if their triples are.
pub nonce_key-same_triple :
    (p c n q d m : String)
    → LacksBar p
    → LacksBar c
    → LacksBar q
    → LacksBar d
    → (nonce_key p c n == nonce_key q d m) ≡ same_triple p c n q d m
nonce_key-same_triple p c n q d m hp hc hq hd = ground (
  arith,
  eq_iff (nonce_key p c n) (nonce_key q d m),
  eq_iff p q,
  eq_iff c d,
  eq_iff n m,
  nonce_key_injective p c n q d m hp hc hq hd,
)

-- A payer or a chain id with a "|" in it can share its key with another triple.
pub nonce_key_collision :
    (p c n x : String) → nonce_key (p ++ "|" ++ x) c n ≡ nonce_key p (x ++ "|" ++ c) n
unfolding nonce_key
nonce_key_collision p c n x = simp append_assoc
