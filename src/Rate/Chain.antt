-- ===== src/Rate/Chain.antt =====
-- The host chains of x/ratesync in the store (x/ratesync/keeper/chain.go, x/ratesync/types/keys.go).
use pstake_native_test.Base.{ℕ, zero, suc, ◌+◌, ◌/◌, ◌%◌, Option, List, [], ◌∷◌, select}
use pstake_native_test.Base.Text.{Bytes, same}
use pstake_native_test.Base.Decimal.{uint64_bound}
use pstake_native_test.Sdk.Store.{KvStore}
use pstake_native_test.Sdk.Store.Content.{values}
use pstake_native_test.Rate.Types.{HostChain}

-- The last `count` bytes of a number, the most significant first.
abbrev pub big_endian : ℕ → ℕ → Bytes → Bytes
big_endian zero n out = out
big_endian (suc count) n out = big_endian count (n / 256) ((n % 256) ∷ out)

unfoldable pub host_chain_key : ℕ → Bytes
host_chain_key id = big_endian 8 id []

-- The counter is stored as a `uint64`; a missing one is zero.
unfoldable pub increment_host_chain_id : ℕ → ℕ
increment_host_chain_id counter = (counter + 1) % uint64_bound

module _ (kv : KvStore HostChain) where
  open kv use {Store, entries, get, set, delete}

  unfoldable pub set_host_chain : HostChain → Store → Store
  unfolding host_chain_key
  set_host_chain hc s = set (host_chain_key hc.id) hc s

  unfoldable pub get_host_chain : ℕ → Store → Option HostChain
  unfolding host_chain_key
  get_host_chain id s = get (host_chain_key id) s

  unfoldable pub get_host_chains_by_chain_id : Bytes → Store → List HostChain
  get_host_chains_by_chain_id chain_id s =
      select (λ hc. same hc.chain_id chain_id) (values (entries s))

  unfoldable pub remove_host_chain : ℕ → Store → Store
  unfolding host_chain_key
  remove_host_chain id s = delete (host_chain_key id) s

  unfoldable pub get_all_host_chain : Store → List HostChain
  get_all_host_chain s = values (entries s)
