-- ===== src/Storage/MemoryData.antt =====
-- storage/memory/storage.go: the data store in memory, a map of maps.
pub mod Tables
use mochi.Base.{
  ◌≡◌, refl, subst, sym, ap, ◌∙◌, Bool, false, Option, none, some, List, [], ◌∷◌, ite, Option-cases,
  inl, inr,
}
use mochi.Base.Bytes.{Bytes, Bytes-discrete}
use mochi.Base.Map
use mochi.Base.Map.{
  Map, is_some, get-insert, get-delete, IsMap, Values, Values-insert, Values-get, insert-IsMap,
  delete-IsMap,
}
use mochi.Result.{ok, Act}
use mochi.Storage.Data.{changed_same, Entry, DataStorage, IsTable, stored, removed, changed}

abbrev pub DataStore : Type 0
DataStore = Map Bytes (Map Bytes Bytes)

-- `ds.Map.Load(ctx)`, and what a context without a map stands for
abbrev pub or_empty : Option (Map Bytes Bytes) → Map Bytes Bytes
or_empty none = []
or_empty (some m) = m

unfoldable pub table : Bytes → DataStore → Map Bytes Bytes
table c ds = or_empty (Map.get Bytes-discrete c ds)

abbrev pub store_all : List Entry → Map Bytes Bytes → Map Bytes Bytes
store_all [] m = m
store_all (e ∷ es) m = store_all es (Map.insert Bytes-discrete e.key e.value m)

unfoldable pub put : Bytes → List Entry → Act DataStore (Unit {0})
put c [] ds = (ok tt, ds)
put c (e ∷ es) ds = (ok tt, Map.insert Bytes-discrete c (store_all (e ∷ es) (table c ds)) ds)

unfoldable pub contains : Bytes → Bytes → Act DataStore Bool
contains c k ds = (
  ok (elim (Map.get Bytes-discrete c ds) [
    | none ↦ false
    | some m ↦ Map.contains Bytes-discrete k m
  ]),
  ds,
)

unfoldable pub load : Bytes → Bytes → Act DataStore (Option Bytes)
load c k ds = (
  ok (elim (Map.get Bytes-discrete c ds) [ none ↦ none | some m ↦ Map.get Bytes-discrete k m ]),
  ds,
)

abbrev pub delete_keys : List Bytes → Map Bytes Bytes → Map Bytes Bytes
delete_keys [] m = m
delete_keys (k ∷ ks) m = delete_keys ks (Map.delete Bytes-discrete k m)

unfoldable pub delete : Bytes → List Bytes → Act DataStore (Unit {0})
delete c [] ds = (ok tt, ds)
delete c (k ∷ ks) ds = (
  ok tt,
  elim (Map.get Bytes-discrete c ds) [
    | none ↦ ds
    | some m ↦ Map.insert Bytes-discrete c (delete_keys (k ∷ ks) m) ds
  ],
)

-- NewDataStorage
abbrev pub memory_data : DataStorage DataStore
memory_data = record {
  put = put;
  contains = contains;
  load = load;
  delete = delete;
  preservable = false;
}
