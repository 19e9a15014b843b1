-- ===== src/Rate/Messages.antt =====
-- The messages of x/ratesync (x/ratesync/keeper/msg_server.go), over the connections, channels and
-- accounts of ibc-go as an interface.
pub mod Updates
use pstake_native_test.Base.{
  ℕ, Bool, true, false, not, ◌&&◌, ◌||◌, ◌==◌, Option, none, some, if◌then◌else◌, Outcome, ok, err,
  panic, ◌>>=◌, ◌>>◌, require, refuse, found_or, wrapped,
}
use pstake_native_test.Base.Text.{Bytes, same}
use pstake_native_test.Sdk.Coin.{Coin}
use pstake_native_test.Sdk.Store.{KvStore}
use pstake_native_test.Ibc.Types.{IcaAccount, ChannelState}
use pstake_native_test.Rate.Types.{
  HostChain, Feature, LiquidStake, InstantiationState, not_initiated, initiated, completed, Error,
  register_failed, invalid, invalid_signer, not_found, invalid_chain_id, key_not_found,
  channel_not_found, sequence_send_not_found, sequence_ack_not_found, packet_out_of_order,
  Identifiers, is_empty, same_list, equals, validate_feature,
}
use pstake_native_test.Rate.Types.PortId.{default_port_owner, must_ica_port_id_from_owner}
use pstake_native_test.Rate.Chain.{
  increment_host_chain_id, set_host_chain, get_host_chain, remove_host_chain,
}

-- The other modules in a state `W`. A channel that is found and open gives its counterparty's port and
-- channel.
pub record Host (W : Type 0) : Type 0 where
  pub chain_id_of : Bytes → W → Option Bytes
  pub register_account : Bytes → Bytes → W → Outcome Error W
  pub open_channel : Bytes → Bytes → W → Option (Bytes × Bytes)
  pub instantiate : IcaAccount → LiquidStake → ℕ → Bytes → Bytes → Bytes → W → Outcome Error W
  pub active_channel : Bytes → Bytes → W → Option Bytes
  pub next_sequence_send : Bytes → Bytes → W → Option ℕ
  pub next_sequence_ack : Bytes → Bytes → W → Option ℕ

pub record State (kv : KvStore HostChain) (W : Type 0) : Type 0 where
  pub counter : ℕ
  pub chains : kv.Store
  pub admin : Bytes
  pub world : W

abbrev pub is_created : ChannelState → Bool
is_created ChannelState.creating = false
is_created ChannelState.created = true

abbrev pub same_coin : Coin → Coin → Bool
same_coin a b = same a.denom b.denom && (a.amount == b.amount)

abbrev pub same_account : IcaAccount → IcaAccount → Bool
same_account a b =
    (if is_created a.channel_state
      then is_created b.channel_state
      else not (is_created b.channel_state))
    && (same a.address b.address && (same a.owner b.owner && same_coin a.balance b.balance))

-- The details are taken over as long as nothing was instantiated.
abbrev pub taken_over : InstantiationState → LiquidStake → LiquidStake → LiquidStake
taken_over not_initiated old new = new
taken_over initiated old new = old
taken_over completed old new = old

-- The denominations are always.
unfoldable pub updated_feature : LiquidStake → LiquidStake → LiquidStake
updated_feature old new =
    let kept = taken_over old.instantiation old new in
    if same_list kept.denoms new.denoms then kept else record kept { denoms = new.denoms }

-- Whether the contract is to be instantiated.
abbrev pub instantiates : InstantiationState → InstantiationState → Bool
instantiates not_initiated initiated = true
instantiates _ _ = false

module _ (kv : KvStore HostChain) {W : Type 0} (host : Host W) (ids : Identifiers)
    (authority : Bytes) where
  abbrev pub is_signer : Bytes → State kv W → Bool
  is_signer signer s = same signer authority || same signer s.admin

  unfoldable pub create_host_chain : Bytes → HostChain → State kv W → Outcome Error (ℕ × State kv W)
  create_host_chain signer hc s =
      let id = increment_host_chain_id s.counter in
      let owner =
        if is_empty hc.ica_account.owner then default_port_owner id else hc.ica_account.owner in
      let hc' = record hc { id = id; ica_account = record hc.ica_account { owner = owner } } in
      do
        require (is_signer signer s) invalid_signer
        chain_id ← found_or (host.chain_id_of hc.connection_id s.world) not_found
        require (same chain_id hc.chain_id) invalid_chain_id
        w ←
            if is_created hc.ica_account.channel_state
            then ok s.world
            else wrapped register_failed (host.register_account hc.connection_id owner s.world)
        counterparty ←
            found_or (host.open_channel hc.transfer_port_id hc.transfer_channel_id w) not_found
        ok (id, record s { counter = id; chains = set_host_chain kv hc' s.chains; world = w })

  -- One feature, with the contract's instantiation where the message starts it.
  unfoldable pub update_feature :
      HostChain → LiquidStake → LiquidStake → Bytes × Bytes → W → Outcome Error (LiquidStake × W)
  unfolding updated_feature
  update_feature old was new counterparty w =
      let w' =
        if instantiates was.instantiation new.instantiation
        then host.instantiate old.ica_account new old.id old.connection_id counterparty.1
            counterparty.0 w
        else ok w in
      w' >>= λ w''. ok (updated_feature was new, w'')

  -- The first of the chain id and the two features that differs is updated, and no other.
  unfoldable pub update_one :
      HostChain → HostChain → Bytes × Bytes → W → Outcome Error (HostChain × W)
  unfolding update_feature
  update_one old new counterparty w =
      let first = new.features.liquid_stake_ibc in
      let second = new.features.liquid_stake in
      let update_first =
        update_feature old old.features.liquid_stake_ibc first counterparty w >>= λ r.
        ok (record old { features = record old.features { liquid_stake_ibc = r.0 } }, r.1) in
      let update_second =
        update_feature old old.features.liquid_stake second counterparty w >>= λ r.
        ok (record old { features = record old.features { liquid_stake = r.0 } }, r.1) in
      if not (same new.chain_id old.chain_id)
      then ok (record old { chain_id = new.chain_id }, w)
      else if not (equals first old.features.liquid_stake_ibc)
      then update_first
      else if not (equals second old.features.liquid_stake)
      then update_second
      else ok (old, w)

  unfoldable pub update_host_chain : Bytes → HostChain → State kv W → Outcome Error (State kv W)
  unfolding update_one
  update_host_chain signer new s = do
    require (is_signer signer s) invalid_signer
    old ← found_or (get_host_chain kv new.id s.chains) key_not_found
    require (same new.connection_id old.connection_id) invalid
    require (same new.transfer_channel_id old.transfer_channel_id) invalid
    require (same new.transfer_port_id old.transfer_port_id) invalid
    counterparty ←
        found_or (host.open_channel old.transfer_port_id old.transfer_channel_id s.world) not_found
    require (is_created old.ica_account.channel_state) invalid
    require (same_account new.ica_account old.ica_account) invalid
    chain_id ← found_or (host.chain_id_of new.connection_id s.world) not_found
    require (same chain_id new.chain_id) invalid_chain_id
    r ← update_one old new counterparty s.world
    validate_feature ids r.0.features
    ok (record s { chains = set_host_chain kv r.0 s.chains; world = r.1 })

  -- Only when no packet of the account is under way.
  unfoldable pub delete_host_chain : Bytes → ℕ → State kv W → Outcome Error (State kv W)
  delete_host_chain signer id s = do
    require (is_signer signer s) invalid_signer
    hc ← found_or (get_host_chain kv id s.chains) key_not_found
    port ← must_ica_port_id_from_owner ids hc.ica_account.owner
    channel ← found_or (host.active_channel hc.connection_id port s.world) channel_not_found
    sent ← found_or (host.next_sequence_send port channel s.world) sequence_send_not_found
    acked ← found_or (host.next_sequence_ack port channel s.world) sequence_ack_not_found
    require (sent == acked) packet_out_of_order
    ok (record s { chains = remove_host_chain kv id s.chains })

  unfoldable pub update_params : Bytes → Bytes → State kv W → Outcome Error (State kv W)
  update_params signer admin s =
      require (is_signer signer s) invalid_signer >> ok (record s { admin = admin })
