-- ===== src/Examples.antt =====
-- Concrete runs of the model: a scenario, tests, and the theorems at concrete inputs.
pub mod Scenario
pub mod Runs
mod Payments
mod Stores
pub mod Endpoints
mod Signer
pub mod Node
mod Sorter
mod Binding
pub mod Wire
pub mod Connect
pub mod Tools
pub mod Page
mod Exchange
mod Process
mod OnChain
mod Connected
