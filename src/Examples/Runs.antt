-- ===== src/Examples/Runs.antt =====
-- The verification and the settlement, run on the scenario.
use cosmos_pay.Prelude.{◌≡◌, refl, some, []}
use cosmos_pay.Errors.{ok, err, verify_error}
use cosmos_pay.Types.Codes.{err_expired_authorization}
use cosmos_pay.Prelude.Text.{trim_prefix}
use cosmos_pay.Amounts.{amount_exceeds, amount_below, set_string}
use cosmos_pay.Encoding.Base64
use cosmos_pay.Nonces.Key.{nonce_key}
use cosmos_pay.Nonces.Table.{lookup}
use cosmos_pay.Nonces.Memory.{memory_store, reserve, commit, release, exists}
use cosmos_pay.Adr036.{adr036_preimage, verify_adr036}
use cosmos_pay.Verify.{
  check_network, check_terms, check_window, check_nonce, check_grant, check_funds, verify,
}
use cosmos_pay.Settle.{success, settle, reserve_and_pay}
use cosmos_pay.Settle.Laws.{response_of}
use cosmos_pay.Examples.Scenario.{toy_lib, request_of, verifier_at, accepted}

-- what the runs compute with
unfoldable pub running : Unit {0}
unfolding check_network check_terms check_window check_nonce check_grant check_funds verify
    trim_prefix amount_exceeds amount_below set_string Base64.decode Base64.encode nonce_key lookup
    reserve commit release exists adr036_preimage verify_adr036 settle reserve_and_pay
running = tt

pub verify_runs :
    (verify toy_lib memory_store (verifier_at 1716700010 accepted) (request_of "10000" "0x01") []
      ≡ ok "noble1payer")
    × (verify toy_lib memory_store (verifier_at 1716700060 accepted) (request_of "10000" "0x01") []
        ≡ err (verify_error err_expired_authorization "expired"))
unfolding running
verify_runs = (refl, refl)

pub settle_runs :
    response_of
      (settle toy_lib memory_store (verifier_at 1716700010 accepted) (request_of "10000" "0x01") [])
    ≡ some (success "ABCD" "cosmos:grand-1" "noble1payer")
unfolding running
settle_runs = refl
