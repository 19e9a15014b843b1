-- ===== src/Rate.antt =====
-- The module that reports the value of the minted tokens to other chains (x/ratesync).
pub mod Types
pub mod Validate
pub mod Chain
pub mod Messages
mod Tests
