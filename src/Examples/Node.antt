-- ===== src/Examples/Node.antt =====
-- The theorems on the chain client, at a node that answers with one grant and one transaction.
use cosmos_pay.Prelude.{
  ℕ, zero, suc, ◌+◌, ◌<◌, String, ◌≡◌, ◌≢◌, ◌↔◌, ◌⊎◌, refl, false, Option, none, some, List, All,
  [], ◌∷◌, arith, ltb, if◌then◌else◌,
}
use cosmos_pay.Clock.{unix_time, zero_time, after}
use cosmos_pay.Errors.{Error, Result, ok, err, plain, wrapped, error_text}
use cosmos_pay.Adr036.{Bytes}
use cosmos_pay.Noble.Query.{
  Coin, Grant, QueryLib, send_authorization, other_authorization, query_send_authorization,
}
use cosmos_pay.Noble.Query.Laws.{
  FirstCovering, IsOther, query_send_authorization_iff, query_no_grant_iff,
}
use cosmos_pay.Chain.{err_no_grant}
use cosmos_pay.Noble.Wait.{
  TxStatus, Polls, WaitTexts, seen, not_yet, add_seconds, wait_from, wait_for_tx,
}
use cosmos_pay.Noble.Wait.Laws.{
  IsIncluded, wait_for_tx_sound, wait_for_tx_ends, wait_for_tx_complete,
}
use cosmos_pay.Noble.Broadcast.{TxLib, Sender, sign_tx, build_tx, send_tx, broadcast_authz_send}
use cosmos_pay.Noble.Tx.{BroadcastResult}
use cosmos_pay.Noble.Broadcast.Laws.{IsSent, broadcast_sound, broadcast_error_cases}

abbrev million : Coin
million = record { denom = "uusdc"; amount = "1000000" }

-- a generic authorization, then a send authorization of a million that does not expire
abbrev pub two_grants : List Grant
two_grants =
    record { authorization = other_authorization; expiration = none }
    ∷ record { authorization = send_authorization (million ∷ []); expiration = none }
    ∷ []

abbrev pub toy_node : QueryLib
toy_node = record {
  grants = λ granter grantee. ok two_grants;
  balance = λ addr denom. ok none;
  account = λ addr. ok (ok (7, 3));
}

query_send_authorization_iff_example :
    (query_send_authorization toy_node "noble1payer" "noble1fac" "uusdc"
      ≡ ok ("1000000", zero_time))
    ↔ FirstCovering "uusdc" "1000000" zero_time two_grants
query_send_authorization_iff_example =
    query_send_authorization_iff toy_node "noble1payer" "noble1fac" "uusdc" "1000000" zero_time
      two_grants refl

query_no_grant_iff_example :
    (query_send_authorization toy_node "noble1payer" "noble1fac" "uatom" ≡ err err_no_grant)
    ↔ All (λ g. IsOther "uatom" g.authorization) two_grants
query_no_grant_iff_example =
    query_no_grant_iff toy_node "noble1payer" "noble1fac" "uatom" two_grants refl

abbrev texts : WaitTexts
texts = record { failed = λ code log. log; timed_out = "timeout" }

abbrev in_block : Result (Option TxStatus)
in_block = ok (some (record { height = 100; code = 0; log = "" }))

-- the transaction is there from the second round on; a round takes two seconds
abbrev pub polls : Polls
polls = record {
  tx = λ i. if ltb i 1 then err (plain "not found") else in_block;
  now = λ i. unix_time (1716700000 + (i + i));
  ended = λ i. none;
}

wait_run : wait_for_tx texts polls 20 30 ≡ some (ok tt)
unfolding wait_for_tx wait_from
wait_run = refl

wait_for_tx_sound_example : (j : ℕ) × (j < 20) × IsIncluded (polls.tx j)
wait_for_tx_sound_example = wait_for_tx_sound texts polls 20 30 wait_run

wait_for_tx_ends_example : wait_for_tx texts polls 20 30 ≢ none
wait_for_tx_ends_example = wait_for_tx_ends texts polls 30 16 20 refl (ground arith)

first_round : (j : ℕ) → j < 1 → seen (polls.tx (0 + j)) ≡ not_yet
first_round j lt = ground arith

still_early :
    (j : ℕ) → j < 1 → after (polls.now (suc (0 + j))) (add_seconds (polls.now 0) 30) ≡ false
still_early zero lt = refl
still_early (suc j) lt = absurd (ground arith)

wait_for_tx_complete_example : wait_for_tx texts polls 20 30 ≡ some (ok tt)
wait_for_tx_complete_example =
    wait_for_tx_complete texts polls 1 20 30 (ground arith) first_round still_early (λ j lt. refl)
      refl

abbrev pub accepted_tx : BroadcastResult
accepted_tx = record { code = 0; log = ""; hash = 171 ∷ 205 ∷ [] }

abbrev pub toy_tx_lib : TxLib
toy_tx_lib = record {
  parse_coin = λ text. ok (record { denom = "uusdc"; amount = "10000" });
  new_coins = λ coin. coin ∷ [];
  account_bytes = λ addr. ok (1 ∷ 2 ∷ []);
  set_msgs = λ msgs. ok tt;
  set_signatures = λ sigs. ok tt;
  sign_bytes = λ signer tx. ok (3 ∷ []);
  pub_key = 2 ∷ [];
  sign = λ m. ok (4 ∷ []);
  encode_tx = λ tx. ok (5 ∷ []);
  broadcast_tx_sync = λ bytes. ok accepted_tx;
  hex_upper = λ bytes. "ABCD";
  int_coin = λ denom n. record { denom = denom; amount = "25000" };
  quote = λ text. text;
  fee_of = λ gas. 25000;
}

abbrev facilitator : Sender
facilitator = record { chain_id = "grand-1"; denom = "uusdc"; address = "noble1fac" }

abbrev account : String → Result (ℕ × ℕ)
account addr = ok (7, 3)

abbrev pub in_time : Bytes → Result (Unit {0})
in_time hash = ok tt

abbrev too_late : Bytes → Result (Unit {0})
too_late hash = err (plain "timeout waiting for tx ABCD")

broadcast_run :
    broadcast_authz_send toy_tx_lib facilitator account in_time "noble1payer" "noble1shop" "uusdc"
      "10000"
    ≡ ("ABCD", none)
unfolding broadcast_authz_send send_tx build_tx sign_tx
broadcast_run = refl

broadcast_sound_example :
    (res : BroadcastResult) × IsSent toy_tx_lib facilitator account in_time "noble1payer"
      "noble1shop" "uusdc" "10000" res
    × (◌≡◌ {A = String} "ABCD" (toy_tx_lib.hex_upper res.hash))
    × (in_time res.hash ≡ ok tt)
broadcast_sound_example =
    broadcast_sound toy_tx_lib facilitator account in_time "noble1payer" "noble1shop" "uusdc"
      "10000" "ABCD" broadcast_run

abbrev late_error : Error
late_error =
    wrapped "wait for inclusion: timeout waiting for tx ABCD" (plain "timeout waiting for tx ABCD")

late_run :
    broadcast_authz_send toy_tx_lib facilitator account too_late "noble1payer" "noble1shop" "uusdc"
      "10000"
    ≡ ("ABCD", some late_error)
unfolding broadcast_authz_send send_tx build_tx sign_tx error_text
late_run = refl

broadcast_error_cases_example :
    ((◌≡◌ {A = String} "ABCD" "")
      × ((res : BroadcastResult)
          → ¬ IsSent toy_tx_lib facilitator account too_late "noble1payer" "noble1shop" "uusdc"
              "10000" res))
    ⊎ ((res : BroadcastResult) × IsSent toy_tx_lib facilitator account too_late "noble1payer"
          "noble1shop" "uusdc" "10000" res
        × (◌≡◌ {A = String} "ABCD" (toy_tx_lib.hex_upper res.hash))
        × (too_late res.hash ≢ ok tt))
broadcast_error_cases_example =
    broadcast_error_cases toy_tx_lib facilitator account too_late "noble1payer" "noble1shop" "uusdc"
      "10000" "ABCD" late_error late_run
