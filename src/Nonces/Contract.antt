-- ===== src/Nonces/Contract.antt =====
-- What the comment on `NonceStore` promises (facilitator/store.go), as laws over an abstract view:
-- each (payer, chain, nonce) triple is unseen, pending or consumed.
use cosmos_pay.Prelude.{String, ◌≡◌, Bool, true, false, not, Option, none, some, if◌then◌else◌}
use cosmos_pay.Clock.{Time}
use cosmos_pay.Errors.{Error, ok, nonce_used}
use cosmos_pay.Nonces.{NonceStore}
use cosmos_pay.Nonces.Key.{LacksBar, same_triple}

pub data Status : Type 0 where
  pending : Time → Status
  consumed : String → Status

abbrev pub is_seen : Option Status → Bool
is_seen none = false
is_seen (some s) = true

-- the entry after `Reserve`
abbrev pub reserved : Time → Option Status → Option Status
reserved until none = some (pending until)
reserved until (some s) = some s

-- the entry after `Commit`
abbrev pub committed : String → Option Status → Option Status
committed tx_hash none = none
committed tx_hash (some s) = some (consumed tx_hash)

-- the entry after `Release`
abbrev pub released : Option Status → Option Status
released none = none
released (some (pending until)) = none
released (some (consumed tx_hash)) = some (consumed tx_hash)

abbrev pub reserve_error : Option Status → Option Error
reserve_error none = none
reserve_error (some s) = some nonce_used

abbrev pub fails : Option Error → Bool
fails none = false
fails (some e) = true

abbrev pub is_consumed : Option Status → Bool
is_consumed (some (consumed tx_hash)) = true
is_consumed _ = false

module _ (N : NonceStore) where
  -- The laws. Operations on one triple do not touch another, as long as the payers and chain ids of
  -- both hold no "|".
  pub record Contract : Type 1 where
    pub view : N.State → String → String → String → Option Status
    pub exists_law : (s : N.State) (p c n : String) → N.exists p c n s ≡ ok (is_seen (view s p c n))
    pub reserve_law :
        (s : N.State) (p c n : String) (until : Time)
        → (N.reserve p c n until s).0 ≡ reserve_error (view s p c n)
    pub commit_law :
        (s : N.State) (p c n tx_hash : String)
        → fails (N.commit p c n tx_hash s).0 ≡ not (is_seen (view s p c n))
    pub release_law :
        (s : N.State) (p c n : String) → fails (N.release p c n s).0 ≡ is_consumed (view s p c n)
    pub view-reserve :
        (s : N.State) (p c n q d m : String) (until : Time)
        → LacksBar p
        → LacksBar c
        → LacksBar q
        → LacksBar d
        → view (N.reserve p c n until s).1 q d m
          ≡ (if same_triple p c n q d m then reserved until (view s q d m) else view s q d m)
    pub view-commit :
        (s : N.State) (p c n tx_hash q d m : String)
        → LacksBar p
        → LacksBar c
        → LacksBar q
        → LacksBar d
        → view (N.commit p c n tx_hash s).1 q d m
          ≡ (if same_triple p c n q d m then committed tx_hash (view s q d m) else view s q d m)
    pub view-release :
        (s : N.State) (p c n q d m : String)
        → LacksBar p
        → LacksBar c
        → LacksBar q
        → LacksBar d
        → view (N.release p c n s).1 q d m
          ≡ (if same_triple p c n q d m then released (view s q d m) else view s q d m)
