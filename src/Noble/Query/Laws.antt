-- ===== src/Noble/Query/Laws.antt =====
-- QuerySendAuthorization of facilitator/chain_noble.go against the list of grants.
use cosmos_pay.Prelude.{
  String, ◌≡◌, ◌≢◌, ◌==◌, eq_iff, Bool-cases, ◌↔◌, ◌⊎◌, inl, inr, refl, Option, none, some,
  Option-cases, List, [], ◌∷◌, All, arith,
}
use cosmos_pay.Clock.{Time, zero_time}
use cosmos_pay.Errors.{ok, err}
use cosmos_pay.Chain.{err_no_grant}
use cosmos_pay.Noble.Query.{
  Coin, Unpacked, unpack_error, other_authorization, send_authorization, Grant, QueryLib, find_coin,
  scan_grants, query_send_authorization,
}

-- In the list, the first coin of the denom has this amount.
pub data FirstOf (denom amount : String) : List Coin → Type 0 where
  found :
      {coin : Coin} {coins : List Coin}
      → coin.denom ≡ denom
      → coin.amount ≡ amount
      → FirstOf denom amount (coin ∷ coins)
  further :
      {coin : Coin} {coins : List Coin}
      → coin.denom ≢ denom
      → FirstOf denom amount coins
      → FirstOf denom amount (coin ∷ coins)

-- No coin of the list has the denom.
abbrev pub Lacks : String → List Coin → Type 0
Lacks denom coins = All (λ coin. coin.denom ≢ denom) coins

-- The grant covers the denom with this limit and expiration.
pub record Covers (denom amount : String) (exp : Time) (g : Grant) : Type 0 where
  pub coins : List Coin
  pub authorized : g.authorization ≡ send_authorization coins
  pub limit : FirstOf denom amount coins
  pub expires : (g.expiration ≡ some exp) ⊎ ((g.expiration ≡ none) × (exp ≡ zero_time))

-- It is no send authorization with a coin of the denom.
abbrev pub IsOther : String → Unpacked → Type 0
IsOther denom (send_authorization coins) = Lacks denom coins
IsOther denom _ = Unit

-- It is the first of the list that covers the denom.
pub data FirstCovering (denom amount : String) (exp : Time) : List Grant → Type 0 where
  here :
      {g : Grant} {gs : List Grant}
      → Covers denom amount exp g
      → FirstCovering denom amount exp (g ∷ gs)
  later :
      {g : Grant} {gs : List Grant}
      → IsOther denom g.authorization
      → FirstCovering denom amount exp gs
      → FirstCovering denom amount exp (g ∷ gs)

FirstOf-find_coin :
    (denom amount : String) {coins : List Coin}
    → FirstOf denom amount coins
    → find_coin denom coins ≡ some amount
unfolding find_coin
FirstOf-find_coin denom amount (found {coin = coin} same value) =
    ground (arith, eq_iff coin.denom denom)
FirstOf-find_coin denom amount (further {coin = coin} other rest) =
    ground (arith, eq_iff coin.denom denom, FirstOf-find_coin denom amount rest)

find_coin-FirstOf :
    (denom amount : String) (coins : List Coin)
    → find_coin denom coins ≡ some amount
    → FirstOf denom amount coins
unfolding find_coin
find_coin-FirstOf denom amount [] h = absurd (ground arith)
find_coin-FirstOf denom amount (coin ∷ coins) h = elim (Bool-cases (coin.denom == denom)) [
  | inl same ↦ found (ground (arith, eq_iff coin.denom denom)) (ground arith)
  | inr other ↦
      further (ground (arith, eq_iff coin.denom denom))
        (find_coin-FirstOf denom amount coins (ground arith))
]

Lacks-find_coin :
    (denom : String) (coins : List Coin) → (find_coin denom coins ≡ none) ↔ Lacks denom coins
unfolding find_coin
Lacks-find_coin denom [] = (λ _. tt, λ _. refl)
Lacks-find_coin denom (coin ∷ coins) =
    ground (arith, eq_iff coin.denom denom, Lacks-find_coin denom coins)

-- what a grant gives to the search
abbrev limit_of : String → Unpacked → Option String
limit_of denom (send_authorization limit) = find_coin denom limit
limit_of denom _ = none

IsOther-limit_of : (denom : String) (u : Unpacked) → (limit_of denom u ≡ none) ↔ IsOther denom u
IsOther-limit_of denom (send_authorization coins) = Lacks-find_coin denom coins
IsOther-limit_of denom (unpack_error e) = (λ _. tt, λ _. refl)
IsOther-limit_of denom other_authorization = (λ _. tt, λ _. refl)

limit_of-FirstOf :
    (denom amount : String) (u : Unpacked)
    → limit_of denom u ≡ some amount
    → (coins : List Coin) × (u ≡ send_authorization coins) × FirstOf denom amount coins
limit_of-FirstOf denom amount (send_authorization coins) h =
    (coins, refl, find_coin-FirstOf denom amount coins h)
limit_of-FirstOf denom amount (unpack_error e) h = absurd (ground arith)
limit_of-FirstOf denom amount other_authorization h = absurd (ground arith)

Covers-limit_of :
    (denom amount : String) (exp : Time) (g : Grant)
    → Covers denom amount exp g
    → limit_of denom g.authorization ≡ some amount
Covers-limit_of denom amount exp g c = rw c.authorized (FirstOf-find_coin denom amount c.limit)

scan_none :
    (denom : String) (gs : List Grant)
    → (scan_grants denom gs ≡ none) ↔ All (λ g. IsOther denom g.authorization) gs
unfolding scan_grants
scan_none denom [] = (λ _. tt, λ _. refl)
scan_none denom (g ∷ gs) =
    let (to, from) = IsOther-limit_of denom g.authorization in
    let (down, up) = scan_none denom gs in
    (
      λ h. (to (ground arith), down (ground arith)),
      λ (other, others). ground (arith, from other, up others),
    )

scan_some :
    (denom amount : String) (exp : Time) (gs : List Grant)
    → scan_grants denom gs ≡ some (amount, exp)
    → FirstCovering denom amount exp gs
unfolding scan_grants
scan_some denom amount exp [] h = cc
scan_some denom amount exp (g ∷ gs) h = elim (Option-cases (limit_of denom g.authorization)) [
  | inl missing ↦
      later ((IsOther-limit_of denom g.authorization).0 missing)
        (scan_some denom amount exp gs (ground arith))
  | inr (a, held) ↦
      let same : a ≡ amount = ground arith in
      let (coins, authorized, first) =
        limit_of-FirstOf denom amount g.authorization (rw same at held) in
      here
        (record { coins = coins; authorized = authorized; limit = first; expires = ground arith })
]

some_scan :
    (denom amount : String) (exp : Time) {gs : List Grant}
    → FirstCovering denom amount exp gs
    → scan_grants denom gs ≡ some (amount, exp)
unfolding scan_grants
some_scan denom amount exp (here {g = g} c) =
    let held = Covers-limit_of denom amount exp g c in let e = c.expires in ground arith
some_scan denom amount exp (later {g = g} other rest) =
    let missing = (IsOther-limit_of denom g.authorization).1 other in
    ground (arith, missing, some_scan denom amount exp rest)

-- Where the node answers with grants, the client reports a limit and an expiration exactly if
-- the first grant of the answer that is a send authorization with a coin of the denom has that
-- expiration, and the amount of its first coin of the denom is that limit; a missing
-- expiration is the zero time.
pub query_send_authorization_iff :
    (lib : QueryLib) (granter grantee denom amount : String) (exp : Time) (gs : List Grant)
    → lib.grants granter grantee ≡ ok gs
    → (query_send_authorization lib granter grantee denom ≡ ok (amount, exp))
      ↔ FirstCovering denom amount exp gs
unfolding query_send_authorization
query_send_authorization_iff lib granter grantee denom amount exp gs answered = (
  λ h. scan_some denom amount exp gs (ground arith),
  λ f. ground (arith, some_scan denom amount exp f),
)

-- Where the node answers with grants, the client reports that there is no grant exactly if no
-- grant of the answer is a send authorization with a coin of the denom.
pub query_no_grant_iff :
    (lib : QueryLib) (granter grantee denom : String) (gs : List Grant)
    → lib.grants granter grantee ≡ ok gs
    → (query_send_authorization lib granter grantee denom ≡ err err_no_grant)
      ↔ All (λ g. IsOther denom g.authorization) gs
unfolding query_send_authorization
query_no_grant_iff lib granter grantee denom gs answered =
    let (to, from) = scan_none denom gs in (λ h. to (ground arith), λ a. ground (arith, from a))
