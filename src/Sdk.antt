-- ===== src/Sdk.antt =====
-- What the program takes from the Cosmos SDK, which is not part of the repository: interfaces that
-- the model's definitions take as parameters, with implementations that show they can be met.
pub mod Coin
pub mod Dec
pub mod Store
