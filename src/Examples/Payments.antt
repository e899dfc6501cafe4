-- ===== src/Examples/Payments.antt =====
-- The theorems on the verification and the settlement, at the payment of the scenario.
use cosmos_pay.Prelude.{String, ◌≡◌, ◌↔◌, refl, none, some, [], arith}
use cosmos_pay.Errors.{ok, error_code}
use cosmos_pay.Types.{VerifyRequest}
use cosmos_pay.Types.Codes.{err_nonce_already_used, err_broadcast_failed}
use cosmos_pay.Clock.{unix_time}
use cosmos_pay.Amounts.{pos, set_string}
use cosmos_pay.Nonces.Key.{LacksBar}
use cosmos_pay.Nonces.Contract.{consumed}
use cosmos_pay.Nonces.Memory.{MemoryNonceStore, memory_store, reserve}
use cosmos_pay.Nonces.Memory.Laws.{memory_contract}
use cosmos_pay.Adr036.{verify_adr036}
use cosmos_pay.Adr036.Laws.{IsSigned, verify_adr036_iff}
use cosmos_pay.Verify.{Verifier, verify}
use cosmos_pay.Verify.Laws.{IsVerified, verify_iff}
use cosmos_pay.Verify.Fields.{with_from, with_price, verify_ignores_from, verify_ignores_price}
use cosmos_pay.Verify.Grants.{IsCovered, verify-IsCovered}
use cosmos_pay.Verify.Nonces.{code_of}
use cosmos_pay.Verify.Refusals.{Refused}
use cosmos_pay.Verify.Refusals.Laws.{verify_code_iff}
use cosmos_pay.Settle.{success, failure, settle, panicked}
use cosmos_pay.Settle.Laws.{
  auth, state_of, sent_of, response_of, broadcast_for, IsPaid, settle-IsPaid, settle-ne-panicked,
  settle_sends-IsVerified,
}
use cosmos_pay.Settle.Effects.{view-settle_success, view-settle_failure}
use cosmos_pay.Settle.Replay.{settle_replay}
use cosmos_pay.Examples.Scenario.{
  toy_lib, request_of, verifier_at, accepted, timed_out, key_b64, signature_b64,
}
use cosmos_pay.Examples.Runs.{running, verify_runs, settle_runs}

abbrev shop : Verifier
shop = verifier_at 1716700010 accepted

abbrev slow_shop : Verifier
slow_shop = verifier_at 1716700010 timed_out

abbrev request : VerifyRequest
request = request_of "10000" "0x01"

verify_iff_example : (verify toy_lib memory_store shop request [] ≡ ok "noble1payer") ↔ (
    IsVerified toy_lib memory_store shop request []
    × (◌≡◌ {A = String} "noble1payer" "noble1payer"))
verify_iff_example = verify_iff toy_lib memory_store shop request [] "noble1payer"

settle-IsPaid_example :
    IsPaid toy_lib memory_store memory_contract shop request []
      (success "ABCD" "cosmos:grand-1" "noble1payer")
settle-IsPaid_example =
    settle-IsPaid toy_lib memory_store memory_contract shop request []
      (success "ABCD" "cosmos:grand-1" "noble1payer") settle_runs refl

payer-LacksBar : LacksBar "noble1payer"
payer-LacksBar = ground arith

chain-LacksBar : LacksBar "grand-1"
chain-LacksBar = ground arith

settle_replay_example :
    sent_of (
      settle toy_lib memory_store slow_shop
        (request_of "9999" "0x01")
        (state_of (settle toy_lib memory_store shop request [])))
    ≡ none
settle_replay_example =
    settle_replay toy_lib memory_store memory_contract shop slow_shop request
      (request_of "9999" "0x01") [] (success "ABCD" "cosmos:grand-1" "noble1payer") payer-LacksBar
      chain-LacksBar settle_runs refl (record { payer = refl; chain = refl; nonce = refl })

view-settle_success_example :
    memory_contract.view
      (state_of (settle toy_lib memory_store shop request []))
      "noble1payer"
      "grand-1"
      "0x01"
    ≡ some (consumed "ABCD")
view-settle_success_example =
    view-settle_success toy_lib memory_store memory_contract shop request [] payer-LacksBar
      chain-LacksBar "noble1payer" "grand-1" "0x01" (success "ABCD" "cosmos:grand-1" "noble1payer")
      payer-LacksBar chain-LacksBar settle_runs refl

slow_run :
    response_of (settle toy_lib memory_store slow_shop request [])
    ≡ some (failure err_broadcast_failed "cosmos:grand-1" "noble1payer")
unfolding running
slow_run = refl

view-settle_failure_example :
    memory_contract.view
      (state_of (settle toy_lib memory_store slow_shop request []))
      "noble1payer"
      "grand-1"
      "0x01"
    ≡ memory_contract.view [] "noble1payer" "grand-1" "0x01"
view-settle_failure_example =
    view-settle_failure toy_lib memory_store memory_contract slow_shop request [] payer-LacksBar
      chain-LacksBar "noble1payer" "grand-1" "0x01"
      (failure err_broadcast_failed "cosmos:grand-1" "noble1payer") payer-LacksBar chain-LacksBar
      slow_run refl

settle-ne-panicked_example : ¬ (settle toy_lib memory_store shop request [] ≡ panicked [])
settle-ne-panicked_example =
    settle-ne-panicked toy_lib memory_store memory_contract shop request [] []

sent_run :
    sent_of (settle toy_lib memory_store shop request [])
    ≡ some (broadcast_for (auth request) accepted)
unfolding running
sent_run = refl

settle_sends-IsVerified_example :
    (w : IsVerified toy_lib memory_store shop request []) × (broadcast_for (auth request) accepted
      ≡ broadcast_for
          (auth request)
          (w.client.broadcast_authz_send "noble1payer" "noble1shop" "uusdc" "10000"))
settle_sends-IsVerified_example =
    settle_sends-IsVerified toy_lib memory_store memory_contract shop request []
      (broadcast_for (auth request) accepted) sent_run

parsed_run : set_string "10000" ≡ some (pos 10000)
unfolding running
parsed_run = refl

verify-IsCovered_example :
    (w : IsVerified toy_lib memory_store shop request []) × IsCovered toy_lib memory_store shop
      request [] w
      (pos 10000)
verify-IsCovered_example =
    verify-IsCovered toy_lib memory_store shop request [] "noble1payer" (pos 10000) verify_runs.0
      parsed_run

verify_ignores_from_example :
    verify toy_lib memory_store shop (with_from "noble1other" 7 9 request) []
    ≡ verify toy_lib memory_store shop request []
verify_ignores_from_example =
    verify_ignores_from toy_lib memory_store shop request [] "noble1other" 7 9

unparsed_run : set_string "1.5" ≡ none
unfolding running
unparsed_run = refl

verify_ignores_price_example :
    verify toy_lib memory_store shop (with_price "1" (request_of "1.5" "0x01")) []
    ≡ verify toy_lib memory_store shop (request_of "1.5" "0x01") []
verify_ignores_price_example =
    verify_ignores_price toy_lib memory_store shop (request_of "1.5" "0x01") [] "1" unparsed_run

verify_adr036_iff_example :
    (verify_adr036 toy_lib key_b64 signature_b64 (auth request) "noble" ≡ ok "noble1payer") ↔ (
      IsSigned toy_lib key_b64 signature_b64 (auth request) "noble"
      × (◌≡◌ {A = String} "noble1payer" "noble1payer"))
verify_adr036_iff_example =
    verify_adr036_iff toy_lib key_b64 signature_b64 (auth request) "noble" "noble1payer"

-- the store after the first request
abbrev used_store : MemoryNonceStore
used_store = (reserve "noble1payer" "grand-1" "0x01" (unix_time 1716700060) []).1

verify_code_iff_example :
    (code_of (verify toy_lib memory_store shop request used_store) ≡ some err_nonce_already_used)
    ↔ Refused toy_lib memory_store shop request used_store err_nonce_already_used
verify_code_iff_example =
    verify_code_iff toy_lib memory_store shop request used_store err_nonce_already_used

replay_run :
    code_of (verify toy_lib memory_store shop request used_store) ≡ some err_nonce_already_used
unfolding running error_code
replay_run = refl

replayed : Refused toy_lib memory_store shop request used_store err_nonce_already_used
replayed =
    (verify_code_iff toy_lib memory_store shop request used_store err_nonce_already_used).0
      replay_run
