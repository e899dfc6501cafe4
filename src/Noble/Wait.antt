-- ===== src/Noble/Wait.antt =====
-- waitForTx of facilitator/chain_noble.go, and of tools/grant/main.go, which differs in its texts
-- only: polling for a transaction until it is included, the deadline passes, or the context ends.
-- Round i of the loop sees the i-th answers of the node, the clock and the context; the loop has
-- fuel, and a clock that passes the deadline gives the number of rounds that are enough.
pub mod Laws
use Prim.Native.String.{◌++◌}
use cosmos_pay.Prelude.{
  ℕ, zero, suc, ◌+◌, String, Bool, true, false, ◌&&◌, Option, none, some, List, eqb, ltb,
  if◌then◌else◌,
}
use cosmos_pay.Prelude.Text.{ascii_text}
use cosmos_pay.Prelude.Words.{add64}
use cosmos_pay.Clock.{Time, after}
use cosmos_pay.Errors.{Error, plain, Result, ok, err}
use cosmos_pay.Encoding.Json.{decimal}

-- coretypes.ResultTx: the height as an `int64` that is not negative, the code, the log
pub record TxStatus : Type 0 where
  pub height : ℕ
  pub code : ℕ
  pub log : String

-- what the rounds see: rpcClient.Tx (a nil result is `none`), time.Now, and ctx.Done
pub record Polls : Type 0 where
  pub tx : ℕ → Result (Option TxStatus)
  pub now : ℕ → Time
  pub ended : ℕ → Option Error

-- the texts of the two errors
pub record WaitTexts : Type 0 where
  pub failed : ℕ → String → String
  pub timed_out : String

-- What one answer says: included with success, included and failed, or not there yet.
pub data Seen : Type 0 where
  included : Seen
  failed_on_chain : ℕ → String → Seen
  not_yet : Seen

abbrev pub seen : Result (Option TxStatus) → Seen
seen (err e) = not_yet
seen (ok none) = not_yet
seen (ok (some res)) =
    if ltb 0 res.height
    then (if eqb res.code 0 then included else failed_on_chain res.code res.log)
    else not_yet

-- time.Duration of whole seconds, added to an instant
abbrev pub add_seconds : Time → ℕ → Time
add_seconds t n = record t { sec = add64 t.sec n }

module _ (texts : WaitTexts) (polls : Polls) where
  -- after a round that did not see the transaction, `rest` is the next round
  abbrev next_round : Time → ℕ → Option (Result (Unit {0})) → Option (Result (Unit {0}))
  next_round deadline i rest =
      if after (polls.now (suc i)) deadline
      then some (err (plain texts.timed_out))
      else elim (polls.ended i) [ some e ↦ some (err e) | none ↦ rest ]

  -- round i and the ones after it; `none` when the fuel runs out
  unfoldable pub wait_from : ℕ → Time → ℕ → Option (Result (Unit {0}))
  wait_from zero deadline i = none
  wait_from (suc fuel) deadline i =
      let rest = wait_from fuel deadline (suc i) in
      elim (seen (polls.tx i)) [
        | included ↦ some (ok tt)
        | failed_on_chain code log ↦ some (err (plain (texts.failed code log)))
        | not_yet ↦ next_round deadline i rest
      ]

  -- waitForTx with a timeout in seconds; the clock is read once before the loop
  unfoldable pub wait_for_tx : ℕ → ℕ → Option (Result (Unit {0}))
  unfolding wait_from
  wait_for_tx fuel timeout = wait_from fuel (add_seconds (polls.now 0) timeout) 0
