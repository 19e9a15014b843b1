-- ===== src/Rate/Tests.antt =====
-- Runs of x/ratesync on small data, and the theorems at inputs that meet their hypotheses.
use pstake_native_test.Sdk.Store.Content.{lookup, insert}
use pstake_native_test.Rate.Chain.{get_host_chain, set_host_chain}
use pstake_native_test.Base.Decimal.{parse_uint, format}
use pstake_native_test.Ibc.Keys.{cut_prefix, is_liquid_staking_denom}
use pstake_native_test.Base.{
  ℕ, ◌+◌, ◌≡◌, refl, true, false, not, some, List, [], ◌∷◌, ◌++◌, arith, Outcome, ok, err, panic,
  Ends, Returns,
}
use pstake_native_test.Base.Text.{same, codes}
use pstake_native_test.Sdk.Coin.{coin}
use pstake_native_test.Sdk.Store.Sorted.{list_store, list_store-StoreLaws}
use pstake_native_test.Ibc.Types.{ChannelState}
use pstake_native_test.Rate.Types.{
  validate_feature, HostChain, LiquidStake, type_liquid_stake_ibc, type_liquid_stake, not_initiated,
  completed, Error, Identifiers, is_empty, equals,
}
use pstake_native_test.Rate.Types.PortId.{
  controller_port_prefix, default_port_owner, must_ica_port_id_from_owner, ReadsBack,
  default_port-ReadsBack, id_from_port_id,
}
use pstake_native_test.Rate.Validate.{validate_host_chain}
use pstake_native_test.Rate.Validate.Active
use pstake_native_test.Rate.Messages.{Host, State, update_host_chain}
use pstake_native_test.Rate.Messages.Updates

abbrev ids : Identifiers
ids = record {
  connection = λ b. true;
  channel = λ b. true;
  port = λ b. true;
  localhost_connection = codes "connection-localhost";
  new_controller_port_id = λ owner. some (controller_port_prefix ++ owner);
  bech32 = λ b. not (is_empty b);
}

abbrev idle : LiquidStake
idle = record {
  feature_type = type_liquid_stake;
  code_id = 0;
  instantiation = not_initiated;
  contract_address = [];
  denoms = codes "*" ∷ [];
  enabled = false;
}

abbrev running : LiquidStake
running = record {
  feature_type = type_liquid_stake_ibc;
  code_id = 3;
  instantiation = completed;
  contract_address = codes "contract";
  denoms = codes "stk/uatom" ∷ [];
  enabled = true;
}

abbrev chain : HostChain
chain = record {
  id = 7;
  chain_id = codes "h-1";
  connection_id = codes "connection-0";
  ica_account = record {
    address = codes "account";
    balance = coin (codes "uatom") 0;
    owner = default_port_owner 7;
    channel_state = ChannelState.created;
  };
  features = record { liquid_stake_ibc = running; liquid_stake = idle };
  transfer_channel_id = codes "channel-0";
  transfer_port_id = codes "transfer";
}

-- Other modules that count what was instantiated.
abbrev host : Host ℕ
host = record {
  chain_id_of = λ connection w. some (codes "h-1");
  register_account = λ connection owner w. ok w;
  open_channel = λ port channel w. some (codes "transfer", codes "channel-9");
  instantiate = λ account f id connection channel port w. ok (w + 1);
  active_channel = λ connection port w. some (codes "channel-1");
  next_sequence_send = λ port channel w. some 4;
  next_sequence_ack = λ port channel w. some 4;
}

abbrev state : State (list_store HostChain) ℕ
state = record {
  counter = 7;
  chains = (0 ∷ 0 ∷ 0 ∷ 0 ∷ 0 ∷ 0 ∷ 0 ∷ 7 ∷ [], chain) ∷ [];
  admin = codes "admin";
  world = 0;
}

-- The feature turned off, with two denominations.
abbrev disabled : HostChain
disabled = record chain {
  features = record {
    liquid_stake_ibc = record running {
      enabled = false;
      denoms = codes "stk/uatom" ∷ codes "stk/uosmo" ∷ [];
    };
    liquid_stake = idle;
  };
}

default_port-ReadsBack_example :
    Returns (ReadsBack 42) (must_ica_port_id_from_owner ids (default_port_owner 42))
default_port-ReadsBack_example = default_port-ReadsBack ids 42 (λ owner. refl) (omega arith)

validate_host_chain-Active_example :
    Active.Created ids chain × Active.Enabled ids running × Active.Enabled ids idle
unfolding validate_host_chain default_port_owner cut_prefix parse_uint format validate_feature same
    is_liquid_staking_denom
validate_host_chain-Active_example = Active.validate_host_chain-Active ids chain refl refl

update_host_chain-Updates_example :
    Ends
      (Updates.Updates
        (list_store HostChain)
        host
        ids
        (codes "gov")
        (list_store-StoreLaws HostChain)
        (codes "admin")
        disabled
        state)
      (λ e. Unit {0})
      (Updates.Panics (list_store HostChain) host ids (codes "gov"))
      (update_host_chain
        (list_store HostChain)
        host
        ids
        (codes "gov")
        (codes "admin")
        disabled
        state)
update_host_chain-Updates_example =
    Updates.update_host_chain-Updates (list_store HostChain) host ids (codes "gov")
      (list_store-StoreLaws HostChain) (codes "admin") disabled state

-- What is stored of the first feature.
abbrev first_after : Outcome Error (State (list_store HostChain) ℕ) → List LiquidStake
first_after (ok s) = elim s.chains [ [] ↦ [] | e ∷ es ↦ e.1.features.liquid_stake_ibc ∷ [] ]
first_after (err e) = []
first_after panic = []

-- The message that turns the feature off changes its denominations and leaves it on.
disable_run :
    first_after (
      update_host_chain
        (list_store HostChain)
        host
        ids
        (codes "gov")
        (codes "admin")
        disabled
        state)
    ≡ record running { denoms = codes "stk/uatom" ∷ codes "stk/uosmo" ∷ [] } ∷ []
unfolding update_host_chain same get_host_chain lookup default_port_owner format equals
    validate_feature is_liquid_staking_denom set_host_chain insert
disable_run = refl

-- The id of a port is read from all its digits.
id_run : id_from_port_id (codes "icacontroller-pstake_ratesync_105") ≡ some 105
unfolding id_from_port_id cut_prefix parse_uint
id_run = refl
