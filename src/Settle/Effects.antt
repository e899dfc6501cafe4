-- ===== src/Settle/Effects.antt =====
-- facilitator/settle.go: the nonce store before and after a settlement.
use cosmos_pay.Prelude.{
  String, ◌≡◌, inl, inr, true, false, none, some, arith, eq_iff, if◌then◌else◌,
}
use cosmos_pay.Clock.{unix_time}
use cosmos_pay.Types.{SettleRequest, SettleResponse}
use cosmos_pay.Nonces.{NonceStore}
use cosmos_pay.Nonces.Key.{LacksBar, same_triple}
use cosmos_pay.Nonces.Contract.{Contract, consumed, reserved}
use cosmos_pay.Adr036.{SignLib}
use cosmos_pay.Verify.{Verifier}
use cosmos_pay.Verify.Laws.{IsVerified}
use cosmos_pay.Settle.{finish, settle}
use cosmos_pay.Settle.Laws.{
  auth, state_of, response_of, settle_verified, settle_cases, settle-IsPaid,
}

module _ (lib : SignLib) (N : NonceStore) (K : Contract N) where
  module _ (v : Verifier) (req : SettleRequest) (s : N.State) (payer : LacksBar (auth req).from)
      (chain : LacksBar (auth req).chain_id) where
    -- what the store shows of a triple after the reservation
    view_reserved :
        (q d m : String)
        → LacksBar q
        → LacksBar d
        → K.view
            (N.reserve
              (auth req).from
              (auth req).chain_id
              (auth req).nonce
              (unix_time (auth req).valid_before)
              s).1
            q
            d
            m
          ≡ (if same_triple (auth req).from (auth req).chain_id (auth req).nonce q d m
              then reserved (unix_time (auth req).valid_before) (K.view s q d m)
              else K.view s q d m)
    view_reserved q d m hq hd =
        K.view-reserve s (auth req).from (auth req).chain_id (auth req).nonce q d m
          (unix_time (auth req).valid_before) payer chain hq hd

    fresh_view :
        IsVerified lib N v req s
        → K.view s (auth req).from (auth req).chain_id (auth req).nonce ≡ none
    fresh_view w =
        ground (arith, K.exists_law s (auth req).from (auth req).chain_id (auth req).nonce, w.fresh)

    -- Over any store that keeps the contract: a settlement that responds with success marks the
    -- triple of its authorization as consumed by the transaction of the response, and leaves
    -- every other triple as it was, for payers and chain ids without a "|".
    pub view-settle_success :
        (q d m : String) (response : SettleResponse)
        → LacksBar q
        → LacksBar d
        → response_of (settle lib N v req s) ≡ some response
        → response.success ≡ true
        → K.view (state_of (settle lib N v req s)) q d m ≡ (
            if same_triple (auth req).from (auth req).chain_id (auth req).nonce q d m
            then some (consumed response.transaction)
            else K.view s q d m)
    unfolding finish
    view-settle_success q d m response hq hd h yes_paid =
        let paid = settle-IsPaid lib N K v req s response h yes_paid in
        let a = auth req in
        let s' = (N.reserve a.from a.chain_id a.nonce (unix_time a.valid_before) s).1 in
        ground (
          arith,
          settle_verified lib N K v req s paid.verified,
          paid.sent,
          paid.answer,
          K.view-commit s' a.from a.chain_id a.nonce paid.tx_hash q d m payer chain hq hd,
          view_reserved q d m hq hd,
          fresh_view paid.verified,
          eq_iff a.from q,
          eq_iff a.chain_id d,
          eq_iff a.nonce m,
        )

    -- Over any store that keeps the contract: a settlement that responds with a failure, whether
    -- it was refused or its broadcast failed, leaves every triple as it was, for payers and chain
    -- ids without a "|".
    pub view-settle_failure :
        (q d m : String) (response : SettleResponse)
        → LacksBar q
        → LacksBar d
        → response_of (settle lib N v req s) ≡ some response
        → response.success ≡ false
        → K.view (state_of (settle lib N v req s)) q d m ≡ K.view s q d m
    unfolding finish
    view-settle_failure q d m response hq hd h failed = elim (settle_cases lib N K v req s) [
      | inl (e, refused, _) ↦ ground arith
      | inr w ↦
          let a = auth req in
          let s' = (N.reserve a.from a.chain_id a.nonce (unix_time a.valid_before) s).1 in
          ground (
            arith,
            settle_verified lib N K v req s w,
            K.view-release s' a.from a.chain_id a.nonce q d m payer chain hq hd,
            view_reserved q d m hq hd,
            fresh_view w,
            eq_iff a.from q,
            eq_iff a.chain_id d,
            eq_iff a.nonce m,
          )
    ]
