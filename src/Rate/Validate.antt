-- ===== src/Rate/Validate.antt =====
-- The validation of a host chain (`ValidateBasic` of x/ratesync/types/types.go).
pub mod Active
use pstake_native_test.Base.{
  Bool, true, false, not, ◌&&◌, ◌||◌, none, some, Outcome, ok, err, ◌>>=◌, ◌>>◌, require, refuse,
  found_or, if◌then◌else◌,
}
use pstake_native_test.Base.Text.{Bytes, same}
use pstake_native_test.Ibc.Types.{IcaAccount, ChannelState}
use pstake_native_test.Rate.Types.{
  HostChain, Identifiers, Error, invalid_request, other, is_empty, validate_feature, is_active,
}
use pstake_native_test.Rate.Types.PortId.{id_from_port_id}

module _ (ids : Identifiers) where
  -- An owner that is given has to be the default one, with any id.
  unfoldable pub validate_owner : Bytes → Outcome Error (Unit {0})
  unfolding id_from_port_id
  validate_owner owner =
      let checked = found_or (ids.new_controller_port_id owner) other >>= λ port_id.
      require (ids.port port_id) other >> found_or (id_from_port_id port_id) other >>= λ _. ok tt in
      if is_empty owner then ok tt else checked

  -- The switch on the state of the channel.
  unfoldable pub validate_account : ChannelState → HostChain → Outcome Error (Unit {0})
  unfolding is_active
  validate_account ChannelState.creating hc =
      require (is_empty hc.ica_account.address) other >> refuse (is_active hc) other
  validate_account ChannelState.created hc =
      refuse (is_empty hc.ica_account.address) other
      >> require (ids.bech32 hc.ica_account.address) other

  unfoldable pub validate_host_chain : HostChain → Outcome Error (Unit {0})
  unfolding validate_owner validate_account
  validate_host_chain hc =
      require (ids.connection hc.connection_id || same hc.connection_id ids.localhost_connection)
        invalid_request
      >> validate_owner hc.ica_account.owner
      >> validate_account hc.ica_account.channel_state hc
      >> validate_feature ids hc.features
      >> require (ids.channel hc.transfer_channel_id) other
      >> require (ids.port hc.transfer_port_id) other
