-- ===== src/Sdk/Store.antt =====
-- The SDK's key-value store, as the keepers use it: `prefix.NewStore(ctx.KVStore(key), prefix)` with
-- typed records behind the codec. A parameter of the model, with its documented behaviour as laws.
pub mod Content
pub mod Sorted
pub mod Update
use pstake_native_test.Base.{◌≡◌, Option}
use pstake_native_test.Base.Text.{Bytes}
use pstake_native_test.Sdk.Store.Content.{Entries, lookup, insert, erase}

-- An iterator yields the entries in the order of their keys.
pub record KvStore (V : Type 0) : Type 1 where
  pub Store : Type 0
  pub entries : Store → Entries V
  pub get : Bytes → Store → Option V
  pub set : Bytes → V → Store → Store
  pub delete : Bytes → Store → Store

-- `Get` finds the entry of a key, `Set` and `Delete` change that entry and no other.
pub record StoreLaws {V : Type 0} (kv : KvStore V) : Type 0 where
  pub get-entries : (k : Bytes) (s : kv.Store) → kv.get k s ≡ lookup k (kv.entries s)
  pub entries-set :
      (k : Bytes) (v : V) (s : kv.Store) → kv.entries (kv.set k v s) ≡ insert k v (kv.entries s)
  pub entries-delete :
      (k : Bytes) (s : kv.Store) → kv.entries (kv.delete k s) ≡ erase k (kv.entries s)
