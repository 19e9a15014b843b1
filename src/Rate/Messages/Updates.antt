-- ===== src/Rate/Messages/Updates.antt =====
-- What an update of a host chain changes.
use pstake_native_test.Rate.Validate.Active.{validate_feature-quiet}
use pstake_native_test.Rate.Chain.{host_chain_key, set_host_chain, get_host_chain}
use pstake_native_test.Sdk.Store.Content.{lookup, lookup-insert}
use pstake_native_test.Ibc.Types.{IcaAccount}
use pstake_native_test.Base.{
  false, ok, some, ◌∙◌, if◌then◌else◌, require-Ends, found-Ends, sym, ℕ, ◌≡◌, ◌≢◌, refl, ap, ◌⊎◌,
  inl, inr, true, List, [], ◌∷◌, arith, err, panic, Ends, chain-Ends, bind-Ends, Bool-cases,
}
use pstake_native_test.Base.Text.{same_refl, Bytes, same, same_iff}
use pstake_native_test.Sdk.Store.{StoreLaws, KvStore}
use pstake_native_test.Rate.Types.{
  not_found, key_not_found, invalid_signer, invalid, invalid_chain_id, validate_feature, HostChain,
  LiquidStake, InstantiationState, not_initiated, initiated, completed, Identifiers, Error,
  same_list, equals,
}
use pstake_native_test.Rate.Messages.{
  same_account, State, is_signer, is_created, update_host_chain, instantiates, Host,
  updated_feature, taken_over, update_feature, update_one,
}

-- A feature whose instantiation has begun keeps everything but its denominations.
abbrev pub Keeps : LiquidStake → LiquidStake → LiquidStake → Type 0
Keeps old new f =
    (f.denoms ≡ new.denoms)
    × (old.instantiation ≢ not_initiated → f ≡ record old { denoms = new.denoms })
    × (old.instantiation ≡ not_initiated → f ≡ new)

same_list_eq : (xs ys : List Bytes) → same_list xs ys ≡ true → xs ≡ ys
same_list_eq [] [] h = refl
same_list_eq [] (y ∷ ys) h = cc h
same_list_eq (x ∷ xs) [] h = cc h
same_list_eq (x ∷ xs) (y ∷ ys) h = ground (arith, same_iff x y, same_list_eq xs ys)

abbrev with_denoms : LiquidStake → List Bytes → LiquidStake
with_denoms f ds = record f { denoms = ds }

abbrev updated : LiquidStake → LiquidStake → LiquidStake
updated old new = with_denoms (taken_over old.instantiation old new) new.denoms

updated_feature_eq : (old new : LiquidStake) → updated_feature old new ≡ updated old new
unfolding updated_feature
updated_feature_eq old new =
    let kept = taken_over old.instantiation old new in
    elim (Bool-cases (same_list kept.denoms new.denoms)) [
      | inl b ↦ rw b (ap (with_denoms kept) (same_list_eq kept.denoms new.denoms b))
      | inr b ↦ rw b refl
    ]

taken-Keeps :
    (state : InstantiationState) (old new : LiquidStake)
    → old.instantiation ≡ state
    → Keeps old new (with_denoms (taken_over state old new) new.denoms)
taken-Keeps not_initiated old new e = (refl, λ h. absurd (h e), λ h. refl)
taken-Keeps initiated old new e = (refl, λ h. refl, λ h. cc)
taken-Keeps completed old new e = (refl, λ h. refl, λ h. cc)

updated_feature-Keeps : (old new : LiquidStake) → Keeps old new (updated_feature old new)
updated_feature-Keeps old new =
    rw (updated_feature_eq old new) (taken-Keeps old.instantiation old new refl)

module _ (kv : KvStore HostChain) {W : Type 0} (host : Host W) (ids : Identifiers)
    (authority : Bytes) where
  -- A contract could not be instantiated.
  abbrev pub Fails : Error → Type 0
  Fails e =
      (account : IcaAccount) × (f : LiquidStake) × (id : ℕ) × (connection : Bytes)
      × (channel : Bytes) × (port : Bytes) × (w : W) × (host.instantiate account f id connection
            channel port w
          ≡ err e)

  abbrev pub Panics : Type 0
  Panics =
      (account : IcaAccount) × (f : LiquidStake) × (id : ℕ) × (connection : Bytes)
      × (channel : Bytes) × (port : Bytes) × (w : W) × (host.instantiate account f id connection
            channel port w
          ≡ panic)

  update_feature-Keeps :
      (old : HostChain) (was new : LiquidStake) (counterparty : Bytes × Bytes) (w : W)
      → Ends
          (λ r. Keeps was new r.0)
          Fails
          Panics
          (update_feature kv host ids authority old was new counterparty w)
  unfolding update_feature
  update_feature-Keeps old was new counterparty w =
      elim (Bool-cases (instantiates was.instantiation new.instantiation)) [
        | inl b ↦ rw b (
            bind-Ends (λ r. Keeps was new r.0) Fails Panics
              (host.instantiate old.ica_account new old.id old.connection_id counterparty.1
                counterparty.0 w)
              _
              (λ e h. (
                old.ica_account, new, old.id, old.connection_id, counterparty.1, counterparty.0, w,
                h,
              ))
              (λ h. (
                old.ica_account, new, old.id, old.connection_id, counterparty.1, counterparty.0, w,
                h,
              ))
              (λ w' h. updated_feature-Keeps was new))
        | inr b ↦ rw b (updated_feature-Keeps was new)
      ]

  -- One of the chain id and the features is updated, or none.
  abbrev pub One : HostChain → HostChain → HostChain → Type 0
  One old new hc =
      (hc ≡ record old { chain_id = hc.chain_id; features = hc.features })
      × (((hc.chain_id ≡ new.chain_id) × (hc.features ≡ old.features))
          ⊎ ((hc.chain_id ≡ old.chain_id)
              × (hc.features.liquid_stake ≡ old.features.liquid_stake)
              × Keeps old.features.liquid_stake_ibc new.features.liquid_stake_ibc
                  hc.features.liquid_stake_ibc)
          ⊎ ((hc.chain_id ≡ old.chain_id)
              × (hc.features.liquid_stake_ibc ≡ old.features.liquid_stake_ibc)
              × Keeps old.features.liquid_stake new.features.liquid_stake hc.features.liquid_stake)
          ⊎ (hc ≡ old))

  update_one-One :
      (old new : HostChain) (counterparty : Bytes × Bytes) (w : W)
      → Ends
          (λ r. One old new r.0)
          Fails
          Panics
          (update_one kv host ids authority old new counterparty w)
  unfolding update_one
  update_one-One old new counterparty w =
      let first = new.features.liquid_stake_ibc in
      let second = new.features.liquid_stake in
      elim (Bool-cases (same new.chain_id old.chain_id)) [
        | inr b ↦ rw b (refl, inl (refl, refl))
        | inl b ↦ elim (Bool-cases (equals first old.features.liquid_stake_ibc)) [
          | inr c ↦
              rw (b, c)
                (chain-Ends (λ r. One old new r.0) Fails Panics
                  (λ r. Keeps old.features.liquid_stake_ibc first r.0) Fails Panics
                  (update_feature kv host ids authority old old.features.liquid_stake_ibc first
                    counterparty w)
                  _ (update_feature-Keeps old old.features.liquid_stake_ibc first counterparty w)
                  (λ e h. h) (λ h. h) (λ r k. (refl, inr (inl (refl, refl, k)))))
          | inl c ↦ elim (Bool-cases (equals second old.features.liquid_stake)) [
            | inr d ↦
                rw (b, c, d)
                  (chain-Ends (λ r. One old new r.0) Fails Panics
                    (λ r. Keeps old.features.liquid_stake second r.0) Fails Panics
                    (update_feature kv host ids authority old old.features.liquid_stake second
                      counterparty w)
                    _ (update_feature-Keeps old old.features.liquid_stake second counterparty w)
                    (λ e h. h) (λ h. h) (λ r k. (refl, inr (inr (inl (refl, refl, k))))))
            | inl d ↦ rw (b, c, d) (refl, inr (inr (inr refl)))
          ]
        ]
      ]

  module _ (laws : StoreLaws kv) (signer : Bytes) (new : HostChain) (s : State kv W) where
    abbrev Updated : HostChain → HostChain → State kv W → Type 0
    Updated old hc s' =
        (is_signer kv host ids authority signer s ≡ true)
        × (get_host_chain kv new.id s.chains ≡ some old)
        × (is_created old.ica_account.channel_state ≡ true)
        × One old new hc
        × (validate_feature ids hc.features ≡ ok tt)
        × (get_host_chain kv hc.id s'.chains ≡ some hc)
        × ((id : ℕ)
            → same (host_chain_key hc.id) (host_chain_key id) ≡ false
            → get_host_chain kv id s'.chains ≡ get_host_chain kv id s.chains)
        × (s' ≡ record s { chains = s'.chains; world = s'.world })

    abbrev pub Updates : State kv W → Type 0
    Updates s' = (old : HostChain) × (hc : HostChain) × Updated old hc s'

    get-set :
        (hc : HostChain) (id : ℕ)
        → get_host_chain kv id (set_host_chain kv hc s.chains) ≡ (
            if same (host_chain_key hc.id) (host_chain_key id)
            then some hc
            else get_host_chain kv id s.chains)
    unfolding get_host_chain set_host_chain
    get-set hc id =
        laws.get-entries (host_chain_key id) _
        ∙ ap (lookup (host_chain_key id)) (laws.entries-set (host_chain_key hc.id) hc s.chains)
        ∙ lookup-insert (host_chain_key id) (host_chain_key hc.id) hc _
        ∙ ap (λ o. if same (host_chain_key hc.id) (host_chain_key id) then some hc else o)
            (sym (laws.get-entries (host_chain_key id) s.chains))

    get-set_self :
        (hc : HostChain) → get_host_chain kv hc.id (set_host_chain kv hc s.chains) ≡ some hc
    get-set_self hc =
        get-set hc hc.id
        ∙ ap (λ b. if b then some hc else get_host_chain kv hc.id s.chains)
            (same_refl (host_chain_key hc.id))

    -- An update that succeeds is signed by the authority or the admin, and its host chain is on record
    -- with an account that was created. At most one of the chain id and the two features changes, and
    -- nothing else of the chain, nor another chain; a feature whose instantiation has begun keeps
    -- everything but its denominations, whether it is enabled included, and the features are valid.
    -- A panic is one of a contract's instantiation.
    pub update_host_chain-Updates :
        Ends Updates (λ e. Unit {0}) Panics (update_host_chain kv host ids authority signer new s)
    unfolding update_host_chain
    update_host_chain-Updates =
        let P = Updates in
        let Q = λ (e : Error). Unit {0} in
        require-Ends P Q Panics (is_signer kv host ids authority signer s) invalid_signer _
          (λ h. tt)
          (λ signed.
            found-Ends P Q Panics (get_host_chain kv new.id s.chains) key_not_found _ (λ h. tt)
              (λ old found.
                require-Ends P Q Panics (same new.connection_id old.connection_id) invalid _
                  (λ h. tt)
                  (λ h1.
                    require-Ends P Q Panics (same new.transfer_channel_id old.transfer_channel_id)
                      invalid _ (λ h. tt)
                      (λ h2.
                        require-Ends P Q Panics (same new.transfer_port_id old.transfer_port_id)
                          invalid _ (λ h. tt)
                          (λ h3.
                            found-Ends P Q Panics
                              (host.open_channel old.transfer_port_id old.transfer_channel_id
                                s.world)
                              not_found _ (λ h. tt)
                              (λ counterparty h4.
                                require-Ends P Q Panics (is_created old.ica_account.channel_state)
                                  invalid _ (λ h. tt)
                                  (λ created.
                                    require-Ends P Q Panics
                                      (same_account new.ica_account old.ica_account) invalid _
                                      (λ h. tt)
                                      (λ h5.
                                        found-Ends P Q Panics
                                          (host.chain_id_of new.connection_id s.world) not_found _
                                          (λ h. tt)
                                          (λ chain_id h6.
                                            require-Ends P Q Panics (same chain_id new.chain_id)
                                              invalid_chain_id _ (λ h. tt)
                                              (λ h7.
                                                chain-Ends P Q Panics (λ r. One old new r.0) Fails
                                                  Panics
                                                  (update_one kv host ids authority old new
                                                    counterparty s.world)
                                                  _ (update_one-One old new counterparty s.world)
                                                  (λ e h. tt) (λ h. h)
                                                  (λ r one.
                                                    bind-Ends P Q Panics
                                                      (validate_feature ids r.0.features)
                                                      (λ u. ok (record s {
                                                        chains = set_host_chain kv r.0 s.chains;
                                                        world = r.1;
                                                      }))
                                                      (λ e h. tt)
                                                      (λ h.
                                                        absurd (
                                                          validate_feature-quiet ids r.0.features
                                                            h))
                                                      (λ u valid. (
                                                        old,
                                                        r.0,
                                                        (
                                                          signed,
                                                          found,
                                                          created,
                                                          one,
                                                          valid,
                                                          get-set_self r.0,
                                                          λ id other_id.
                                                            get-set r.0 id
                                                            ∙ ap
                                                            (λ b.
                                                            if b
                                                            then some r.0
                                                            else get_host_chain kv id s.chains)
                                                            other_id,
                                                          refl,
                                                        ),
                                                      )))))))))))))
