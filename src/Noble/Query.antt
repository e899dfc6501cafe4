-- ===== src/Noble/Query.antt =====
-- The queries of the chain client. The gRPC services and the codec are the record `QueryLib`.
pub mod Laws
use Prim.Native.String.{◌++◌}
use Prim.Native.String
use cosmos_pay.Prelude.{
  ℕ, String, Bool, true, false, ◌==◌, ◌||◌, Option, none, some, List, [], ◌∷◌, if◌then◌else◌,
}
use cosmos_pay.Prelude.Text.{contains}
use cosmos_pay.Clock.{Time, zero_time}
use cosmos_pay.Errors.{Error, wrapped, error_text, Result, ok, err, ◌>>=◌, map_error}
use cosmos_pay.Chain.{err_no_grant, err_chain_rpc, chain_rpc_text}

-- sdk.Coin; the amount as its `String()` gives it
pub record Coin : Type 0 where
  pub denom : String
  pub amount : String

-- what `UnpackAny` makes of the authorization of a grant
pub data Unpacked : Type 0 where
  unpack_error : Error → Unpacked
  send_authorization : List Coin → Unpacked
  other_authorization : Unpacked

pub record Grant : Type 0 where
  pub authorization : Unpacked
  pub expiration : Option Time

pub record QueryLib : Type 0 where
  -- authzQC.Grants for MsgSend, at granter and grantee
  pub grants : String → String → Result (List Grant)
  -- bankQC.Balance at address and denom; a nil balance is `none`
  pub balance : String → String → Result (Option String)
  -- authQC.Account and the unpacking of its answer: account number and sequence
  pub account : String → Result (Result (ℕ × ℕ))

-- fmt.Errorf("%w: %v", ErrChainRPC, err)
abbrev pub rpc_error : Error → Error
rpc_error e = wrapped (chain_rpc_text ++ ": " ++ error_text e) err_chain_rpc

-- the inner loop: the first coin of the denom
unfoldable pub find_coin : String → List Coin → Option String
find_coin denom [] = none
find_coin denom (coin ∷ coins) =
    if coin.denom == denom then some coin.amount else find_coin denom coins

abbrev expiration_of : Option Time → Time
expiration_of none = zero_time
expiration_of (some t) = t

-- one round of the outer loop, with the result of the rounds after it
abbrev pub scan_grant : String → Grant → Unpacked → Option (String × Time) → Option (String × Time)
scan_grant denom g (unpack_error e) rest = rest
scan_grant denom g other_authorization rest = rest
scan_grant denom g (send_authorization limit) rest = elim (find_coin denom limit) [
  | some amount ↦ some (amount, expiration_of g.expiration)
  | none ↦ rest
]

unfoldable pub scan_grants : String → List Grant → Option (String × Time)
unfolding find_coin
scan_grants denom [] = none
scan_grants denom (g ∷ gs) = scan_grant denom g g.authorization (scan_grants denom gs)

abbrev or_no_grant : Option (String × Time) → Result (String × Time)
or_no_grant none = err err_no_grant
or_no_grant (some found) = ok found

-- the error of the query, with "not found" mapped to the sentinel
abbrev pub grants_error : Error → Error
grants_error e =
    if contains "authorization not found" (error_text e) || contains "NotFound" (error_text e)
    then err_no_grant
    else rpc_error e

module _ (lib : QueryLib) where
  unfoldable pub query_send_authorization : String → String → String → Result (String × Time)
  unfolding scan_grants
  query_send_authorization granter grantee denom = do
    grants ← map_error grants_error (lib.grants granter grantee)
    or_no_grant (scan_grants denom grants)

  abbrev or_zero : Option String → String
  or_zero none = "0"
  or_zero (some amount) = amount

  unfoldable pub query_balance : String → String → Result String
  query_balance addr denom = do
    answer ← map_error rpc_error (lib.balance addr denom)
    ok (or_zero answer)

  unfoldable pub query_account_num_seq : String → Result (ℕ × ℕ)
  query_account_num_seq addr = do
    answer ← lib.account addr
    map_error (λ e. wrapped ("unpack account: " ++ error_text e) e) answer
