-- ===== src/Ibc.antt =====
-- The module that stakes on other chains (x/liquidstakeibc).
pub mod Types
pub mod Keys
pub mod Deposit
pub mod Strategy
pub mod Unbonding
pub mod LsmDeposit
pub mod Redelegation
pub mod Epoch
pub mod CValue
pub mod HostChain
pub mod Rebalance
pub mod Acks
pub mod Claim
pub mod Flow
pub mod Block
pub mod Bank
pub mod State
pub mod Messages
mod Tests
mod UnbondingTests
mod RecordTests
mod ChainTests
mod MessageTests
mod AckTests
mod ClaimTests
mod FlowTests
