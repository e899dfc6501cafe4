-- ===== src/Examples/Exchange.antt =====
-- The demo client, the demo server and a facilitator whose chain accepts the transfer.
use cosmos_pay.Prelude.{
  ℕ, String, ◌≡◌, refl, ◌==◌, if◌then◌else◌, false, some, none, inr, [], ◌∷◌, arith, eq_iff,
}
use cosmos_pay.Errors.{Result, ok}
use cosmos_pay.Types.{PaymentRequirements, PaymentPayload, SettleRequest}
use cosmos_pay.Encoding.Json.{print}
use cosmos_pay.Nonces.Memory.{memory_store}
use cosmos_pay.Nonces.Memory.Laws.{memory_contract}
use cosmos_pay.Adr036.{Bytes}
use cosmos_pay.Verify.Laws.{check_grant_iff, check_funds_iff}
use cosmos_pay.Settle.{Broadcast, settle}
use cosmos_pay.Settle.Laws.{auth, sent_of, broadcast_for}
use cosmos_pay.Http.{Header, new_writer, get_header}
use cosmos_pay.Middleware.{build_requirements, decode_payload, settle_request, with_defaults}
use cosmos_pay.Noble.Config.{env_or}
use cosmos_pay.Server.{with_line_break, settle_handler}
use cosmos_pay.Client.{
  build_authorization, build_payload, fresh_nonce, pay, decode_header, payment_header,
}
use cosmos_pay.Client.Run.{Response, ClientLib, client_main}
use cosmos_pay.Tools.Keys.{derive_key}
use cosmos_pay.Prelude.Text.{trim_space}
use cosmos_pay.DemoServer.{premium_json}
use cosmos_pay.DemoServer.Laws.{page_request}
use cosmos_pay.Deployment.{post_of}
use cosmos_pay.Deployment.Exchange.{IsPrepared}
use cosmos_pay.Deployment.Wire.{json_http}
use cosmos_pay.Deployment.Wire.Payment.{client_main_pays}
use cosmos_pay.Client.Run.Laws.{IsRetried}
use cosmos_pay.Deployment.Wire.Exchange.{exchange_completes_over_json}
use cosmos_pay.Types.Decode.{unmarshal_requirements, decode_request}
use cosmos_pay.Examples.Scenario.{no_free, toy_lib, verifier_at, chain_answering, accepted}
use cosmos_pay.Examples.Signer.{zeros, toy_key-KeyWorks}
use cosmos_pay.Examples.Tools.{toy_keys, toy_env}
use cosmos_pay.Examples.Page.{key_of, page_config, config_run, not_found, ticks, reaching}
use cosmos_pay.Examples.Runs.{running}

abbrev asked : PaymentRequirements
asked = build_requirements (with_defaults page_config) (page_request "localhost:8080" [])

abbrev sent_payload : PaymentPayload
sent_payload =
    build_payload asked "noble1payer"
      (build_authorization asked "noble1payer" (fresh_nonce (1 ∷ 2 ∷ [])) false 1716700000)
      (zeros 64, zeros 3)

abbrev posted : SettleRequest
posted = settle_request sent_payload asked

-- a client that posts to the settlement endpoint
abbrev posting : ℕ → String → Bytes → Result Bytes
posting n url body =
    ok
      (settle_handler toy_lib memory_store (decode_request no_free)
        (verifier_at 1716700010 accepted) new_writer (post_of body) []).0.body

abbrev visiting : ℕ → String → Header → Result Response
visiting = (reaching (λ n. json_http (posting n))).get

abbrev reading : ClientLib
reading = record {
  unmarshal_requirements = unmarshal_requirements no_free;
  get = visiting;
  body_text = λ b. "";
}

prepared :
    IsPrepared
      (λ n. json_http (posting n))
      not_found
      page_config
      ticks
      "localhost:8080"
      toy_lib
      toy_keys
      key_of
      reading
      toy_env
      (1 ∷ 2 ∷ [])
      1716700000
      memory_store
      memory_contract
      (decode_request no_free)
      (verifier_at 1716700010 accepted)
      []
      (chain_answering accepted)
      (1 ∷ [])
      "noble1payer"
      "ABCD"
      sent_payload
unfolding running derive_key trim_space env_or decode_header print build_requirements decode_payload
    build_authorization build_payload fresh_nonce pay get_header
prepared = record {
  reached = λ n header. refl;
  given = ground (arith, eq_iff (toy_env "X402_PAYER_MNEMONIC") "");
  prompt = refl;
  derived = refl;
  key_works = toy_key-KeyWorks;
  network = refl;
  named = ground (arith, eq_iff "grand-1" "");
  timeout = inr (ground arith);
  ready = record {
    serves = refl;
    no_past = ground arith;
    no_wrap = ground arith;
    clock_after = ground arith;
    clock_before = ground arith;
    fresh = refl;
    granted =
        (check_grant_iff (chain_answering accepted) (verifier_at 1716700010 accepted).clock
            (auth posted) asked).0
          refl;
    funded = (check_funds_iff (chain_answering accepted) (auth posted)).0 refl;
  };
  signed = refl;
  accepts = refl;
}

exchange_completes_over_json_example :
    (client_main toy_lib toy_keys key_of reading toy_env (1 ∷ 2 ∷ []) 1716700000
      ≡ ok (with_line_break (print (premium_json (ticks 1)))))
    × (sent_of (settle toy_lib memory_store (verifier_at 1716700010 accepted) posted [])
        ≡ some (broadcast_for (auth posted) ("ABCD", none)))
exchange_completes_over_json_example =
    exchange_completes_over_json no_free posting visiting (λ b. "") not_found page_config ticks
      "localhost:8080" toy_lib toy_keys key_of toy_env (1 ∷ 2 ∷ []) 1716700000 memory_store
      memory_contract (verifier_at 1716700010 accepted) [] (chain_answering accepted) (1 ∷ [])
      "noble1payer" "ABCD" sent_payload (ground arith, ground arith) (λ body. refl) prepared

exchange_run :
    (client_main toy_lib toy_keys key_of reading toy_env (1 ∷ 2 ∷ []) 1716700000
      ≡ ok (with_line_break (print (premium_json (ticks 1)))))
    × (sent_of (settle toy_lib memory_store (verifier_at 1716700010 accepted) posted [])
        ≡ some (broadcast_for (auth posted) ("ABCD", none)))
exchange_run =
    exchange_completes_over_json no_free posting visiting (λ b. "") not_found page_config ticks
      "localhost:8080" toy_lib toy_keys key_of toy_env (1 ∷ 2 ∷ []) 1716700000 memory_store
      memory_contract (verifier_at 1716700010 accepted) [] (chain_answering accepted) (1 ∷ [])
      "noble1payer" "ABCD" sent_payload (ground arith, ground arith) (λ body. refl) prepared

client_printed :
    client_main toy_lib toy_keys key_of reading toy_env (1 ∷ 2 ∷ []) 1716700000
    ≡ ok (with_line_break (print (premium_json (ticks 1))))
client_printed = exchange_run.0

client_main_pays_example :
    (p : IsRetried toy_lib toy_keys key_of reading toy_env
      (1 ∷ 2 ∷ [])
      1716700000
      (with_line_break (print (premium_json (ticks 1)))))
    × (transfer : Broadcast) × (sent_of (
          settle toy_lib memory_store
            (verifier_at 1716700010 accepted)
            (settle_request p.payload (
              build_requirements (with_defaults page_config) (
                page_request "localhost:8080"
                  (("PAYMENT-SIGNATURE", payment_header p.payload) ∷ []))))
            [])
        ≡ some transfer)
    × (transfer.error ≡ none)
    × (transfer.to ≡ toy_env "X402_PAY_TO")
    × (transfer.amount ≡ (if toy_env "X402_AMOUNT" == "" then "10000" else toy_env "X402_AMOUNT"))
    × (transfer.denom ≡ (if toy_env "X402_ASSET" == "" then "uusdc" else toy_env "X402_ASSET"))
    × (with_line_break (print (premium_json (ticks 1)))
        ≡ with_line_break (print (premium_json (ticks 1))))
client_main_pays_example =
    client_main_pays no_free posting visiting (λ b. "") not_found page_config ticks "localhost:8080"
      toy_lib toy_keys key_of toy_env (1 ∷ 2 ∷ []) 1716700000 memory_store memory_contract
      (verifier_at 1716700010 accepted) [] toy_env ":8080"
      (with_line_break (print (premium_json (ticks 1)))) config_run (λ n header. refl)
      (λ body. refl) client_printed
