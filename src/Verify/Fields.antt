-- ===== src/Verify/Fields.antt =====
-- Requests that differ in single fields, at facilitator/verify.go.
use cosmos_pay.Prelude.{ℕ, String, ◌≡◌, refl, none, arith}
use cosmos_pay.Types.{VerifyRequest}
use cosmos_pay.Amounts.{set_string, amount_exceeds}
use cosmos_pay.Nonces.{NonceStore}
use cosmos_pay.Adr036.{SignLib}
use cosmos_pay.Verify.{Verifier, check_network, check_terms, check_window, check_grant, verify}

-- the request with another `payload.from` and other version numbers
abbrev pub with_from : String → ℕ → ℕ → VerifyRequest → VerifyRequest
with_from from version inner_version req =
    let pp = req.payment_payload in
    let cp = pp.payload in
    record req {
      x402_version = version;
      payment_payload = record pp {
        x402_version = inner_version;
        payload = record cp { from = from };
      };
    }

-- the request with another price
abbrev pub with_price : String → VerifyRequest → VerifyRequest
with_price price req =
    let pr = req.payment_requirements in
    record req { payment_requirements = record pr { max_amount_required = price } }

module _ (lib : SignLib) (N : NonceStore) where
  -- With another `from` in the payload, outside the authorization, and other version numbers,
  -- `Verify` gives the same result.
  pub verify_ignores_from :
      (v : Verifier) (req : VerifyRequest) (s : N.State) (from : String) (version inner : ℕ)
      → verify lib N v (with_from from version inner req) s ≡ verify lib N v req s
  unfolding verify check_network
  verify_ignores_from v req s from version inner = refl

  -- If the amount of the authorization does not parse as an integer, then `Verify` gives the same
  -- result at every `maxAmountRequired`.
  pub verify_ignores_price :
      (v : Verifier) (req : VerifyRequest) (s : N.State) (price : String)
      → set_string req.payment_payload.payload.authorization.amount ≡ none
      → verify lib N v (with_price price req) s ≡ verify lib N v req s
  unfolding verify check_network check_terms check_window check_grant amount_exceeds
  verify_ignores_price v req s price h = ground arith
