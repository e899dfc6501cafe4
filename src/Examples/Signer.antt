-- ===== src/Examples/Signer.antt =====
-- The theorems on the client and on the settlement endpoint, at one key and one payment.
use cosmos_pay.Prelude.{
  ℕ, zero, suc, ◌<◌, All, String, ◌≡◌, inl, refl, false, [], ◌∷◌, arith, eq_iff,
}
use cosmos_pay.Errors.{Result, ok}
use cosmos_pay.Types.{PaymentPayload, PaymentRequirements, VerifyRequest}
use cosmos_pay.Nonces.Memory.{memory_store}
use cosmos_pay.Adr036.{Bytes}
use cosmos_pay.Verify.{verify}
use cosmos_pay.Verify.Laws.{check_grant_iff, check_funds_iff}
use cosmos_pay.Http.{Request}
use cosmos_pay.Middleware.{build_requirements, settle_request, with_defaults}
use cosmos_pay.Client.{PrivKey, build_authorization, build_payload, sign_auth, pay}
use cosmos_pay.Client.Laws.{KeyWorks, IsReady, client_payment_verifies}
use cosmos_pay.Examples.Scenario.{toy_lib, request_of, verifier_at, chain_answering, accepted}
use cosmos_pay.Examples.Endpoints.{shop_config, premium}
use cosmos_pay.Examples.Runs.{running}

abbrev pub zeros : ℕ → Bytes
zeros zero = []
zeros (suc n) = 0 ∷ zeros n

abbrev pub toy_key : PrivKey
toy_key = record { sign = λ m. ok (zeros 64); pub_key_bytes = zeros 3 }

zeros-All : All (λ b. b < 256) (zeros 64)
zeros-All = ground arith

pub toy_key-KeyWorks : KeyWorks toy_lib toy_key "noble" "noble1payer"
toy_key-KeyWorks = record {
  key_length = refl;
  key_bytes = ground arith;
  sig_length = λ m sig e. ground arith;
  sig_bytes = λ m sig e. ground (arith, zeros-All);
  checks = λ m sig e. ground arith;
  address_of = refl;
}

abbrev paid_requirements : PaymentRequirements
paid_requirements = build_requirements (with_defaults shop_config) (premium "")

abbrev signed_payload : PaymentPayload
signed_payload =
    build_payload paid_requirements "noble1payer"
      (build_authorization paid_requirements "noble1payer" "0x01" false 1716700000)
      (zeros 64, zeros 3)

sign_run :
    sign_auth toy_lib toy_key
      (build_authorization paid_requirements "noble1payer" "0x01" false 1716700000)
    ≡ ok (zeros 64, zeros 3)
unfolding running sign_auth build_authorization build_requirements
sign_run = refl

from_run :
    (build_authorization paid_requirements "noble1payer" "0x01" false 1716700000).from
    ≡ "noble1payer"
unfolding build_authorization
from_run = refl

ready :
    IsReady toy_lib memory_store
      (verifier_at 1716700010 accepted)
      (chain_answering accepted)
      paid_requirements
      (build_authorization paid_requirements "noble1payer" "0x01" false 1716700000)
      1716700000
      []
unfolding running build_authorization build_requirements
ready = record {
  serves = refl;
  no_past = ground arith;
  no_wrap = ground arith;
  clock_after = ground arith;
  clock_before = ground arith;
  fresh = refl;
  granted =
      (check_grant_iff (chain_answering accepted) (verifier_at 1716700010 accepted).clock
          (build_authorization paid_requirements "noble1payer" "0x01" false 1716700000)
          paid_requirements).0
        refl;
  funded =
      (check_funds_iff (chain_answering accepted)
          (build_authorization paid_requirements "noble1payer" "0x01" false 1716700000)).0
        refl;
}

pay_run :
    pay toy_lib toy_key paid_requirements "noble1payer" "0x01" false 1716700000 ≡ ok signed_payload
unfolding running pay sign_auth build_authorization build_payload build_requirements
pay_run = refl

client_payment_verifies_example :
    verify toy_lib memory_store
      (verifier_at 1716700010 accepted)
      (settle_request signed_payload paid_requirements)
      []
    ≡ ok "noble1payer"
client_payment_verifies_example =
    client_payment_verifies toy_lib memory_store toy_key (chain_answering accepted) shop_config
      (premium "") (verifier_at 1716700010 accepted) "noble1payer" "0x01" 1716700000 []
      signed_payload refl (ground (arith, eq_iff "grand-1" "")) (inl refl) toy_key-KeyWorks ready
      pay_run

-- a decoder that knows one request
abbrev one_request : Bytes → Result VerifyRequest
one_request b = ok (request_of "10000" "0x01")

abbrev settle_call : String → Request
settle_call m = record (premium "") { method = m }
