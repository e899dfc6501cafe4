-- ===== src/Nonces.antt =====
-- facilitator/store.go: the `NonceStore` interface. Its in-memory implementation is Nonces/Memory,
-- the key of an entry Nonces/Key, and the contract that clients rely on Nonces/Contract.
pub mod Table
pub mod Key
pub mod Contract
pub mod Memory
use cosmos_pay.Prelude.{String, Bool, Option}
use cosmos_pay.Clock.{Time}
use cosmos_pay.Errors.{Error, Result}

-- The arguments are payer, chain id and nonce, then those of the method, then the store's state.
pub record NonceStore : Type 1 where
  pub State : Type 0
  pub reserve : String → String → String → Time → State → Option Error × State
  pub commit : String → String → String → String → State → Option Error × State
  pub release : String → String → String → State → Option Error × State
  pub exists : String → String → String → State → Result Bool
