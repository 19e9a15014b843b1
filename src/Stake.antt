-- ===== src/Stake.antt =====
-- The module that stakes on the home chain (x/liquidstake).
pub mod Types
pub mod Divide
pub mod Convert
pub mod Rebalance
pub mod Delegate
pub mod Unstake
mod Tests
mod UnstakeTests
