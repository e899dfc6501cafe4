-- ===== src/Settle/Replay.antt =====
-- facilitator/settle.go: two settlements of one triple, one after the other.
use cosmos_pay.Prelude.{◌≡◌, inl, inr, true, none, some, Option-cases, arith, eq_iff}
use cosmos_pay.Types.{SettleRequest, SettleResponse}
use cosmos_pay.Nonces.{NonceStore}
use cosmos_pay.Nonces.Key.{LacksBar}
use cosmos_pay.Nonces.Contract.{Contract, is_seen}
use cosmos_pay.Adr036.{SignLib}
use cosmos_pay.Verify.{Verifier}
use cosmos_pay.Settle.{settle}
use cosmos_pay.Settle.Laws.{auth, state_of, sent_of, response_of, settle_sends-IsVerified}
use cosmos_pay.Settle.Effects.{view-settle_success}

-- the two requests carry one (payer, chain, nonce) triple
pub record SameNonce (req req' : SettleRequest) : Type 0 where
  pub payer : (auth req).from ≡ (auth req').from
  pub chain : (auth req).chain_id ≡ (auth req').chain_id
  pub nonce : (auth req).nonce ≡ (auth req').nonce

module _ (lib : SignLib) (N : NonceStore) (K : Contract N) where
  -- Nothing is broadcast for a triple that the store has seen.
  pub seen_not_sent :
      (v : Verifier) (req : SettleRequest) (s : N.State)
      → is_seen (K.view s (auth req).from (auth req).chain_id (auth req).nonce) ≡ true
      → sent_of (settle lib N v req s) ≡ none
  seen_not_sent v req s seen = elim (Option-cases (sent_of (settle lib N v req s))) [
    | inl nothing ↦ nothing
    | inr (b, sent) ↦
        let w = (settle_sends-IsVerified lib N K v req s b sent).0 in
        absurd (
          ground
            (arith, K.exists_law s (auth req).from (auth req).chain_id (auth req).nonce, w.fresh))
  ]

  -- Over any store that keeps the contract: after a settlement that responded with success, whose
  -- payer and chain id hold no "|", a settlement of any request with the same payer, chain id and
  -- nonce makes no broadcast, whatever its other fields, the clock and the chain say.
  pub settle_replay :
      (v v' : Verifier) (req req' : SettleRequest) (s : N.State) (response : SettleResponse)
      → LacksBar (auth req).from
      → LacksBar (auth req).chain_id
      → response_of (settle lib N v req s) ≡ some response
      → response.success ≡ true
      → SameNonce req req'
      → sent_of (settle lib N v' req' (state_of (settle lib N v req s))) ≡ none
  settle_replay v v' req req' s response payer chain h yes_paid same =
      seen_not_sent v' req' (state_of (settle lib N v req s)) (
        ground (
          arith,
          view-settle_success lib N K v req s payer chain (auth req').from (auth req').chain_id
              (auth req').nonce response (rw same.payer at payer) (rw same.chain at chain) h
              yes_paid,
          eq_iff (auth req).from (auth req').from,
          eq_iff (auth req).chain_id (auth req').chain_id,
          eq_iff (auth req).nonce (auth req').nonce,
        ))
