-- ===== src/Noble/Wait/Laws.antt =====
-- waitForTx of facilitator/chain_noble.go: its answers and its end.
use cosmos_pay.Prelude.{
  ℕ, zero, suc, ◌+◌, ◌<◌, ◌≤◌, ◌≡◌, ◌≢◌, ◌⊎◌, inl, inr, refl, true, false, Option, none, some,
  arith,
}
use cosmos_pay.Clock.{Time, after}
use cosmos_pay.Errors.{Result, ok, err}
use cosmos_pay.Noble.Wait.{
  TxStatus, Polls, WaitTexts, included, failed_on_chain, not_yet, Seen, seen, add_seconds,
  wait_from, wait_for_tx,
}

Seen-cases : (s : Seen) → (s ≡ not_yet) ⊎ (s ≢ not_yet)
Seen-cases included = inr (cc)
Seen-cases (failed_on_chain code log) = inr (cc)
Seen-cases not_yet = inl refl

le_cases : (a b : ℕ) → a ≤ b → (a ≡ b) ⊎ (suc a ≤ b)
le_cases a b h = ground arith

-- An answer of the node with the transaction in a block, at a positive height, run with code 0.
pub record IsIncluded (answer : Result (Option TxStatus)) : Type 0 where
  pub status : TxStatus
  pub found : answer ≡ ok (some status)
  pub in_block : 0 < status.height
  pub succeeded : status.code ≡ 0

included-IsIncluded :
    (answer : Result (Option TxStatus)) → seen answer ≡ included → IsIncluded answer
included-IsIncluded (err e) h = absurd (ground arith)
included-IsIncluded (ok none) h = absurd (ground arith)
included-IsIncluded (ok (some res)) h = record {
  status = res;
  found = refl;
  in_block = ground arith;
  succeeded = ground arith;
}

module _ (texts : WaitTexts) (polls : Polls) where
  -- Success is reported only after an answer that shows the transaction included with code 0.
  wait_from_sound :
      (fuel : ℕ) (deadline : Time) (i : ℕ)
      → wait_from texts polls fuel deadline i ≡ some (ok tt)
      → (j : ℕ) × (j < i + fuel) × (seen (polls.tx j) ≡ included)
  unfolding wait_from
  wait_from_sound zero deadline i h = cc
  wait_from_sound (suc fuel) deadline i h = elim (Seen-cases (seen (polls.tx i))) [
    | inl waiting ↦
        let (j, lt, there) = wait_from_sound fuel deadline (suc i) (ground arith) in
        (j, omega arith, there)
    | inr done ↦ (i, omega arith, ground arith)
  ]

  -- With fuel for the rounds up to one after which the clock has passed the deadline, the loop ends.
  wait_from_ends :
      (fuel : ℕ) (deadline : Time) (i n : ℕ)
      → i ≤ n
      → n < i + fuel
      → after (polls.now (suc n)) deadline ≡ true
      → wait_from texts polls fuel deadline i ≢ none
  unfolding wait_from
  wait_from_ends zero deadline i n le lt late = absurd (omega arith)
  wait_from_ends (suc fuel) deadline i n le lt late = elim (le_cases i n le) [
    | inl same ↦ ground (arith, same)
    | inr less ↦ ground (arith, wait_from_ends fuel deadline (suc i) n less (omega arith) late)
  ]

  -- If the wait reports success, then the answer of the node in one of its rounds was no
  -- error and held the transaction at a positive height with code 0.
  pub wait_for_tx_sound :
      (fuel timeout : ℕ)
      → wait_for_tx texts polls fuel timeout ≡ some (ok tt)
      → (j : ℕ) × (j < fuel) × IsIncluded (polls.tx j)
  unfolding wait_for_tx
  wait_for_tx_sound fuel timeout h =
      let (j, lt, there) = wait_from_sound fuel (add_seconds (polls.now 0) timeout) 0 h in
      (j, omega arith, included-IsIncluded (polls.tx j) there)

  -- If the clock is past the deadline after round n, then more than n rounds of fuel give the
  -- wait a result.
  pub wait_for_tx_ends :
      (timeout n fuel : ℕ)
      → after (polls.now (suc n)) (add_seconds (polls.now 0) timeout) ≡ true
      → n < fuel
      → wait_for_tx texts polls fuel timeout ≢ none
  unfolding wait_for_tx
  wait_for_tx_ends timeout n fuel late lt =
      wait_from_ends fuel (add_seconds (polls.now 0) timeout) 0 n (omega arith) (omega arith) late

  -- A transaction that shows up as included before the clock passes the deadline or the context
  -- ends is reported as a success.
  wait_from_complete :
      (k : ℕ) (deadline : Time) (i fuel : ℕ)
      → k < fuel
      → ((j : ℕ) → j < k → seen (polls.tx (i + j)) ≡ not_yet)
      → ((j : ℕ) → j < k → after (polls.now (suc (i + j))) deadline ≡ false)
      → ((j : ℕ) → j < k → polls.ended (i + j) ≡ none)
      → seen (polls.tx (i + k)) ≡ included
      → wait_from texts polls fuel deadline i ≡ some (ok tt)
  unfolding wait_from
  wait_from_complete k deadline i zero lt waiting early open_ctx there = absurd (omega arith)
  wait_from_complete zero deadline i (suc fuel) lt waiting early open_ctx there =
      let e : i + 0 ≡ i = omega arith in let t = rw e at there in ground (arith, t)
  wait_from_complete (suc k) deadline i (suc fuel) lt waiting early open_ctx there =
      let step = λ (j : ℕ). ◌≡◌ {A = ℕ} (i + suc j) (suc i + j) in
      let ih =
        wait_from_complete k deadline (suc i) fuel (omega arith)
          (λ j lt'. let e : step j = omega arith in rw e at (waiting (suc j) (omega arith)))
          (λ j lt'. let e : step j = omega arith in rw e at (early (suc j) (omega arith)))
          (λ j lt'. let e : step j = omega arith in rw e at (open_ctx (suc j) (omega arith)))
          (let e : step k = omega arith in rw e at there) in
      let zero_step : i + 0 ≡ i = omega arith in
      let here₁ = rw zero_step at (waiting 0 (omega arith)) in
      let here₂ = rw zero_step at (early 0 (omega arith)) in
      let here₃ = rw zero_step at (open_ctx 0 (omega arith)) in
      ground (arith, ih, here₁, here₂, here₃)

  -- If the node's answers show nothing for k rounds, in which neither the deadline passes nor the
  -- context ends, and the next answer shows the transaction included with code 0, then the wait
  -- reports success, with more than k rounds of fuel.
  pub wait_for_tx_complete :
      (k fuel timeout : ℕ)
      → k < fuel
      → ((j : ℕ) → j < k → seen (polls.tx (0 + j)) ≡ not_yet)
      → ((j : ℕ)
          → j < k
          → after (polls.now (suc (0 + j))) (add_seconds (polls.now 0) timeout) ≡ false)
      → ((j : ℕ) → j < k → polls.ended (0 + j) ≡ none)
      → seen (polls.tx (0 + k)) ≡ included
      → wait_for_tx texts polls fuel timeout ≡ some (ok tt)
  unfolding wait_for_tx
  wait_for_tx_complete k fuel timeout =
      wait_from_complete k (add_seconds (polls.now 0) timeout) 0 fuel
