-- ===== src/Sdk/Store/Sorted.antt =====
-- A store that keeps its entries in a sorted list, which meets the laws.
use pstake_native_test.Base.{refl}
use pstake_native_test.Sdk.Store.{KvStore, StoreLaws}
use pstake_native_test.Sdk.Store.Content.{Entries, lookup, insert, erase}

abbrev pub list_store : (V : Type 0) → KvStore V
list_store V = record {
  Store = Entries V;
  entries = λ s. s;
  get = lookup;
  set = insert;
  delete = erase;
}

pub list_store-StoreLaws : (V : Type 0) → StoreLaws (list_store V)
list_store-StoreLaws V = record {
  get-entries = λ k s. refl;
  entries-set = λ k v s. refl;
  entries-delete = λ k s. refl;
}
