-- ===== src/Verify/Grants.antt =====
-- The amounts of facilitator/verify.go as integers: the price, the limit of the grant, the
-- balance.
use cosmos_pay.Prelude.{String, ◌≡◌, some}
use cosmos_pay.Errors.{ok}
use cosmos_pay.Types.{VerifyRequest}
use cosmos_pay.Amounts.{BigInt, set_string}
use cosmos_pay.Amounts.Laws.{Le, amount_exceeds_iff, amount_below_iff}
use cosmos_pay.Nonces.{NonceStore}
use cosmos_pay.Adr036.{SignLib}
use cosmos_pay.Verify.{Verifier, verify}
use cosmos_pay.Verify.Laws.{IsVerified, verify_sound}

module _ (lib : SignLib) (N : NonceStore) where
  -- The amount of a verified payment, as an integer, is at most the price, at most the limit that
  -- the chain reports for the grant, and at most the balance where the chain reports one; each where
  -- both sides parse as integers.
  pub record IsCovered (v : Verifier) (req : VerifyRequest) (s : N.State)
      (w : IsVerified lib N v req s) (n : BigInt) : Type 0 where
    pub price :
        (m : BigInt) → set_string req.payment_requirements.max_amount_required ≡ some m → Le n m
    pub limit : (m : BigInt) → set_string w.granted.limit ≡ some m → Le n m
    pub balance :
        (bal : String) (m : BigInt)
        → w.client.query_balance req.payment_payload.payload.authorization.from
            req.payment_payload.payload.authorization.denom
          ≡ ok bal
        → set_string bal ≡ some m
        → Le n m

  pub verified-IsCovered :
      (v : Verifier) (req : VerifyRequest) (s : N.State) (w : IsVerified lib N v req s) (n : BigInt)
      → set_string req.payment_payload.payload.authorization.amount ≡ some n
      → IsCovered v req s w n
  verified-IsCovered v req s w n parsed =
      let a = req.payment_payload.payload.authorization in
      record {
        price = λ m p.
            (amount_exceeds_iff a.amount req.payment_requirements.max_amount_required n m parsed
                p).0
              w.terms.amount;
        limit = λ m p. (amount_below_iff w.granted.limit a.amount m n p parsed).0 w.granted.covers;
        balance = λ bal m answered p.
            (amount_below_iff bal a.amount m n p parsed).0 (w.funded bal answered);
      }

  -- If `Verify` returns a payer and the amount parses as an integer, then that integer is at most
  -- the price, at most the limit that the chain reports for the grant, and at most the balance if
  -- the chain reports one, each where it parses as an integer.
  pub verify-IsCovered :
      (v : Verifier) (req : VerifyRequest) (s : N.State) (payer : String) (n : BigInt)
      → verify lib N v req s ≡ ok payer
      → set_string req.payment_payload.payload.authorization.amount ≡ some n
      → (w : IsVerified lib N v req s) × IsCovered v req s w n
  verify-IsCovered v req s payer n h parsed =
      let w = (verify_sound lib N v req s payer h).0 in (w, verified-IsCovered v req s w n parsed)
