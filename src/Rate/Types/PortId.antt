-- ===== src/Rate/Types/PortId.antt =====
-- The ports of the interchain accounts and the store keys of x/ratesync (x/ratesync/types: types.go,
-- keys.go).
use pstake_native_test.Base.{
  Returns, ℕ, ◌<◌, ◌≡◌, refl, ap, ◌∙◌, some, none, Option, ◌∷◌, ◌++◌, Outcome, ok, panic,
}
use pstake_native_test.Base.Text.{Bytes, codes}
use pstake_native_test.Base.Decimal.{format, parse_uint, parse_uint-format, uint64_bound}
use pstake_native_test.Ibc.Keys.{cut_prefix, cut_prefix-append}
use pstake_native_test.Rate.Types.{Identifiers, Error}

abbrev pub controller_port_prefix : Bytes
controller_port_prefix = codes "icacontroller-"

abbrev pub default_port_owner_prefix : Bytes
default_port_owner_prefix = codes "pstake_ratesync_"

unfoldable pub default_port_owner : ℕ → Bytes
default_port_owner id = default_port_owner_prefix ++ format id

unfoldable pub must_ica_port_id_from_owner : Identifiers → Bytes → Outcome Error Bytes
must_ica_port_id_from_owner ids owner = elim (ids.new_controller_port_id owner) [
  | none ↦ panic
  | some id ↦ ok id
]

unfoldable pub owner_from_port_id : Bytes → Option Bytes
owner_from_port_id port_id = cut_prefix port_id controller_port_prefix

unfoldable pub id_from_port_id : Bytes → Option ℕ
id_from_port_id port_id =
    elim (cut_prefix port_id (controller_port_prefix ++ default_port_owner_prefix)) [
      | none ↦ none
      | some id ↦ parse_uint id
    ]

-- The documented result of `NewControllerPortID` for an owner that is not blank.
abbrev pub PortLaw : Identifiers → Type 0
PortLaw ids =
    (owner : Bytes)
    → ids.new_controller_port_id (112 ∷ owner) ≡ some (controller_port_prefix ++ (112 ∷ owner))

abbrev default_port_owner_tail : ℕ → Bytes
default_port_owner_tail id = codes "stake_ratesync_" ++ format id

id_from-port :
    (id : ℕ)
    → id < uint64_bound
    → id_from_port_id (controller_port_prefix ++ default_port_owner id) ≡ some id
unfolding id_from_port_id default_port_owner
id_from-port id h =
    ap (λ (o : Option Bytes). elim o [ none ↦ none | some s ↦ parse_uint s ])
      (cut_prefix-append (controller_port_prefix ++ default_port_owner_prefix) (format id))
    ∙ parse_uint-format id h

owner_from-port :
    (owner : Bytes) → owner_from_port_id (controller_port_prefix ++ owner) ≡ some owner
unfolding owner_from_port_id
owner_from-port owner = cut_prefix-append controller_port_prefix owner

must_ica-some :
    (ids : Identifiers) (owner p : Bytes)
    → ids.new_controller_port_id owner ≡ some p
    → must_ica_port_id_from_owner ids owner ≡ ok p
unfolding must_ica_port_id_from_owner
must_ica-some ids owner p e = rw (e, must_ica_port_id_from_owner) refl

made :
    (ids : Identifiers) (id : ℕ)
    → PortLaw ids
    → ids.new_controller_port_id (default_port_owner id)
      ≡ some (controller_port_prefix ++ default_port_owner id)
unfolding default_port_owner
made ids id law = law (default_port_owner_tail id)

-- What the id of a host chain is read back from.
abbrev pub ReadsBack : ℕ → Bytes → Type 0
ReadsBack id port =
    (id_from_port_id port ≡ some id) × (owner_from_port_id port ≡ some (default_port_owner id))

-- With the documented ports of ibc-go, the port of the default owner for an id of 64 bits is made
-- without a panic, and the id and the owner are read back from it.
pub default_port-ReadsBack :
    (ids : Identifiers) (id : ℕ)
    → PortLaw ids
    → id < uint64_bound
    → Returns (ReadsBack id) (must_ica_port_id_from_owner ids (default_port_owner id))
default_port-ReadsBack ids id law h =
    rw (must_ica-some ids (default_port_owner id) _ (made ids id law))
      (id_from-port id h, owner_from-port (default_port_owner id))
