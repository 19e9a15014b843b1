-- ===== src/Lib.antt =====
-- Persistence pStake: liquid staking on the home chain and over IBC.
--
-- The repository is a Cosmos SDK application in Go. Its own logic is in three modules:
-- x/liquidstake stakes the home chain's coin through a proxy account and mints stkXPRT for it;
-- x/liquidstakeibc stakes coins of host chains through interchain accounts and mints a token for
-- each host denomination; x/ratesync reports the value of those tokens to other chains. This library
-- models each in part; the notes at the end say what is left out.
--
-- How the parts interact. A user's stake becomes part of the deposit of the chain and epoch
-- (deposit.go), which moves through four states until interchain messages delegate it to the
-- validators (delegation_strategy.go). Unstaking adds to the unbonding of the chain and epoch and to
-- the user's (unbonding.go, user_unbonding.go); a validator that is left entirely has an unbonding of
-- its own (validator_unbonding.go). Tokenized shares come in as deposits of their own
-- (lsm_deposit.go). Every deposit, delegation and matured unbonding counts for the value of the
-- minted token (keeper.go), which disables the chain when it leaves its limits. Redelegations keep
-- the validators near their weights (rebalance.go, redelegation.go).
--
-- Base: names shared by all modules. Base.Tests, Lists and Ending hold Boolean tests, lists, and
--   `Outcome`: how a Go function ends, with a result, an error or a panic. Base.Int has integers over
--   the native numbers, Base.Text byte strings with their order, Base.Decimal decimal numerals.
-- Sdk: what the program takes from the Cosmos SDK, as parameters. Sdk.Store is a key-value store of
--   records behind the codec, with `Get`, `Set`, `Delete` and an iterator in the order of the keys,
--   and laws that say so; Sdk.Store.Sorted is an implementation. Sdk.Store.Update has the loops that put back
--   or delete filtered records. Sdk.Dec has decimals as counts of 10^-18,
--   with the rounded operations as a parameter whose laws bound the rounding; Sdk.Dec.Rounding is
--   an implementation. Sdk.Coin has coins, with the panics of `Add` and `Sub`.
-- Ibc: x/liquidstakeibc.
--   Ibc.Types: the records of proto/pstake/liquidstakeibc/v1beta1/liquidstakeibc.proto.
--   Ibc.Keys: types/keys.go and the denominations of types/liquidstakeibc.go.
--   Ibc.Epoch: `IsUnbondingEpoch` and `CurrentUnbondingEpoch` of types/liquidstakeibc.go, on int64.
--   Ibc.Deposit: keeper/deposit.go. Ibc.LsmDeposit: keeper/lsm_deposit.go.
--   Ibc.Unbonding: keeper/unbonding.go, user_unbonding.go, validator_unbonding.go.
--   Ibc.Redelegation: keeper/redelegation.go, redelegation_txs.go.
--   Ibc.Strategy: keeper/delegation_strategy.go and types/host_chain.go.
--   Ibc.HostChain: keeper/host_chain.go. Ibc.Rebalance: keeper/rebalance.go.
--   Ibc.CValue: the value of the minted token in keeper/keeper.go and keeper/invariants.go.
--   Ibc.Bank and Ibc.State: the bank as a record of calls with their effect on balances, and the
--   stores of keeper/keeper.go. Ibc.Messages: `LiquidStake`, `LiquidUnstake` and `Redeem` of
--   keeper/msg_server.go on that state. A call that fails gives no state, since the SDK discards
--   what a failed message has written.
--   Ibc.Acks: keeper/ica_handlers.go, and Ibc.Acks.Packet: the acknowledgements and timeouts of
--   keeper/ibc.go. What the codecs read from bytes is a record of functions.
--   Ibc.Claim: `DoClaim` of keeper/abci.go. A call of the bank that fails is taken to change nothing.
--   Ibc.Flow: `DepositWorkflow` and the outcomes of transfers in keeper/hooks.go, `DoDelegate` of
--   keeper/abci.go and keeper/ica.go, over the message router and the codec as the record `Router`;
--   Ibc.Flow.Stage has the stages of a deposit as a relation. Ibc.Block: `DoRecreateICA`,
--   `DoDeleteRedelegationTxs` and `DoDeleteMaturedRedelegation` of keeper/abci.go. A registration that
--   fails is logged by the code, and what it leaves in the world is the controller's.
-- Stake: x/liquidstake.
--   Stake.Types and Stake.Convert: types/liquidstake.go. Stake.Divide: types/rebalancing.go.
--   Stake.Rebalance: `MinMaxGap` of types/liquidstake.go, `TryRedelegation` and `Rebalance` of
--   keeper/rebalancing.go, over the staking module as the record `StakingKeeper`.
--   Stake.Delegate: `LiquidStake` and `LiquidDelegate` of keeper/liquidstake.go, over the bank and the
--   staking module as the record `ChainKeeper`.
--   Stake.Unstake: `LiquidUnstake` and `LiquidUnbond` of keeper/liquidstake.go, over the bank and the
--   staking module as the record `UnstakeKeeper`.
-- Rate: x/ratesync. Rate.Types and Rate.Validate: types/types.go, Rate.Types.PortId: the ports in it,
--   Rate.Chain: keeper/chain.go, Rate.Messages: keeper/msg_server.go, over ibc-go as the record `Host`.
-- Modules whose name ends in Tests, but for Base.Tests, run the definitions on small data and apply the theorems to it.
--
-- Names follow the source: `AdjustDepositsForRedemption` is `adjust_deposits_for_redemption`. State
-- is passed and returned; a function that changes a host chain in place returns it. A function that
-- cannot fail returns its result, another one an `Outcome`.
--
-- Bounds. Amounts are natural numbers where the code keeps them so, and integers where a difference or
-- a delegation may be negative; `math.Int` overflows at 256 bits, which is not modelled. `int64` and
-- `uint32` results are wrapped. Loops go over lists; the rounds of `rebalance_loop` count down from
-- the number of validators, as in the source. The digits of a number n are printed with n + 1 rounds,
-- more than it has digits.
--
-- Not modelled: locking and the delegation of shares in x/liquidstake, its message server and the
-- other messages of x/liquidstakeibc, the other workflows of the epoch hooks, transfers that arrive, the rest of the begin blocker, the opening
-- of channels, interchain queries, validator updates,
-- the transactions of x/ratesync, the parameters and the genesis state; events, logs and telemetry, which change no
-- state; the application, the command line and generated code.
pub mod Base
pub mod Sdk
pub mod Ibc
pub mod Stake
pub mod Rate
