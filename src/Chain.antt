-- ===== src/Chain.antt =====
-- facilitator/chain.go: the chain client that the facilitator uses, and its sentinel errors. One
-- value of `ChainClient` stands for what the chain answers during one request, where each method
-- is called at most once.
use cosmos_pay.Prelude.{String, Option}
use cosmos_pay.Clock.{Time}
use cosmos_pay.Errors.{Error, chain_error, Result}

pub record ChainClient : Type 0 where
  pub chain_id : String
  pub account_prefix : String
  -- granter, grantee, denom; the limit and the expiration
  pub query_send_authorization : String → String → String → Result (String × Time)
  -- address, denom
  pub query_balance : String → String → Result String
  -- from, to, denom, amount; the hash may come with an error
  pub broadcast_authz_send : String → String → String → String → String × Option Error

abbrev pub no_grant_text : String
no_grant_text = "no SendAuthorization grant found"

abbrev pub chain_rpc_text : String
chain_rpc_text = "chain rpc error"

-- ErrNoGrant, ErrChainRPC
abbrev pub err_no_grant : Error
err_no_grant = chain_error no_grant_text

abbrev pub err_chain_rpc : Error
err_chain_rpc = chain_error chain_rpc_text
