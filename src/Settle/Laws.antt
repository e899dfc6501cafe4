-- ===== src/Settle/Laws.antt =====
-- facilitator/settle.go: the ways out of a settlement, over any store that keeps the contract.
use cosmos_pay.Prelude.{String, ◌≡◌, ◌≢◌, ◌⊎◌, inl, inr, true, Option, none, some, arith}
use cosmos_pay.Clock.{unix_time}
use cosmos_pay.Errors.{Error, err, error_code, Result-cases}
use cosmos_pay.Types.{Authorization, SettleRequest, SettleResponse}
use cosmos_pay.Nonces.{NonceStore}
use cosmos_pay.Nonces.Contract.{Contract}
use cosmos_pay.Adr036.{SignLib}
use cosmos_pay.Verify.{Verifier, verify}
use cosmos_pay.Verify.Laws.{IsVerified, verify_sound, verify_complete}
use cosmos_pay.Settle.{
  Broadcast, Outcome, responded, panicked, failure, success, finish, pay, reserve_and_pay, settle,
}

abbrev pub auth : SettleRequest → Authorization
auth req = req.payment_payload.payload.authorization

module _ {S : Type 0} where
  abbrev pub state_of : Outcome S → S
  state_of (responded response s sent) = s
  state_of (panicked s) = s

  abbrev pub sent_of : Outcome S → Option Broadcast
  sent_of (responded response s sent) = sent
  sent_of (panicked s) = none

  abbrev pub response_of : Outcome S → Option SettleResponse
  response_of (responded response s sent) = some response
  response_of (panicked s) = none

-- the record of a call of BroadcastAuthzSend for an authorization
abbrev pub broadcast_for : Authorization → String × Option Error → Broadcast
broadcast_for a answer = record {
  from = a.from;
  to = a.to;
  denom = a.denom;
  amount = a.amount;
  tx_hash = answer.0;
  error = answer.1;
}

module _ (lib : SignLib) (N : NonceStore) (K : Contract N) where
  -- A verified payment gets its reservation, and the broadcast is made by the client that the
  -- verification used.
  pub settle_verified :
      (v : Verifier) (req : SettleRequest) (s : N.State) (w : IsVerified lib N v req s)
      → settle lib N v req s
        ≡ finish N
            (auth req)
            req.payment_payload.network
            (auth req).from
            (w.client.broadcast_authz_send
              (auth req).from
              (auth req).to
              (auth req).denom
              (auth req).amount)
            (N.reserve
              (auth req).from
              (auth req).chain_id
              (auth req).nonce
              (unix_time (auth req).valid_before)
              s).1
  unfolding settle reserve_and_pay pay
  settle_verified v req s w =
      let a = auth req in
      ground (
        arith,
        verify_complete lib N v req s w,
        K.exists_law s a.from a.chain_id a.nonce,
        w.fresh,
        K.reserve_law s a.from a.chain_id a.nonce (unix_time a.valid_before),
        w.network.configured,
      )

  pub settle_cases :
      (v : Verifier) (req : SettleRequest) (s : N.State)
      → ((e : Error) × (settle lib N v req s
            ≡ responded (failure (error_code e) req.payment_payload.network "") s none)
          × (verify lib N v req s ≡ err e))
        ⊎ IsVerified lib N v req s
  unfolding settle
  settle_cases v req s = elim (Result-cases (verify lib N v req s)) [
    | inl (e, h) ↦ inl (e, ground arith, h)
    | inr (payer, h) ↦ inr (verify_sound lib N v req s payer h).0
  ]

  -- Over any store that keeps the contract, a settlement never panics by a call on a missing
  -- chain client.
  pub settle-ne-panicked :
      (v : Verifier) (req : SettleRequest) (s s' : N.State) → settle lib N v req s ≢ panicked s'
  unfolding finish
  settle-ne-panicked v req s s' = elim (settle_cases v req s) [
    | inl (e, h, _) ↦ λ p. cc
    | inr w ↦ λ p. ground (arith, settle_verified v req s w)
  ]

  -- what a successful response stands for
  pub record IsPaid (v : Verifier) (req : SettleRequest) (s : N.State) (response : SettleResponse)
      : Type 0 where
    pub verified : IsVerified lib N v req s
    pub tx_hash : String
    pub sent :
        verified.client.broadcast_authz_send
          (auth req).from
          (auth req).to
          (auth req).denom
          (auth req).amount
        ≡ (tx_hash, none)
    pub recorded : sent_of (settle lib N v req s) ≡ some (broadcast_for (auth req) (tx_hash, none))
    pub answer : response ≡ success tx_hash req.payment_payload.network (auth req).from

  -- Over any store that keeps the contract: if a settlement responds with success, then the
  -- request was verified, the broadcast of exactly the transfer of its authorization was made by
  -- the client that the verification used and reported no error, and the response names its hash,
  -- the network and the payer.
  pub settle-IsPaid :
      (v : Verifier) (req : SettleRequest) (s : N.State) (response : SettleResponse)
      → response_of (settle lib N v req s) ≡ some response
      → response.success ≡ true
      → IsPaid v req s response
  unfolding finish
  settle-IsPaid v req s response h yes_paid = elim (settle_cases v req s) [
    | inl (e, refused, _) ↦ absurd (ground arith)
    | inr w ↦
        let answer =
          w.client.broadcast_authz_send (auth req).from (auth req).to (auth req).denom
            (auth req).amount in
        record {
          verified = w;
          tx_hash = answer.0;
          sent = ground (arith, settle_verified v req s w);
          recorded = ground (arith, settle_verified v req s w);
          answer = ground (arith, settle_verified v req s w);
        }
  ]

  -- Over any store that keeps the contract: if a settlement made a broadcast, then its request
  -- was verified, and the broadcast is the transfer of its authorization by the client that the
  -- verification used.
  pub settle_sends-IsVerified :
      (v : Verifier) (req : SettleRequest) (s : N.State) (b : Broadcast)
      → sent_of (settle lib N v req s) ≡ some b
      → (w : IsVerified lib N v req s) × (b
          ≡ broadcast_for (auth req) (
              w.client.broadcast_authz_send
                (auth req).from
                (auth req).to
                (auth req).denom
                (auth req).amount))
  unfolding finish
  settle_sends-IsVerified v req s b h = elim (settle_cases v req s) [
    | inl (e, refused, _) ↦ absurd (ground arith)
    | inr w ↦ (w, ground (arith, settle_verified v req s w))
  ]
