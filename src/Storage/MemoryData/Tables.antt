-- ===== src/Storage/MemoryData/Tables.antt =====
-- storage/memory/storage.go: the data store is a table of tables.
use mochi.Base.{
  ◌≡◌, refl, subst, sym, ap, ◌∙◌, Option, none, some, List, [], ◌∷◌, ite, Option-cases, inl, inr,
}
use mochi.Base.Bytes.{Bytes, Bytes-discrete}
use mochi.Base.Map
use mochi.Base.Map.{
  Map, is_some, get-insert, get-delete, IsMap, Values, Values-insert, Values-get, insert-IsMap,
  delete-IsMap,
}
use mochi.Result.{ok}
use mochi.Storage.Data.{changed_same, Entry, IsTable, stored, removed, changed}
use mochi.Storage.MemoryData.{
  DataStore, or_empty, table, store_all, put, contains, load, delete_keys, delete, memory_data,
}

unfoldable pub data_view : DataStore → Bytes → Bytes → Option Bytes
data_view ds c k = Map.get Bytes-discrete k (table c ds)

get-store_all :
    (es : List Entry) (m : Map Bytes Bytes) (t : Bytes → Option Bytes)
    → ((j : Bytes) → Map.get Bytes-discrete j m ≡ t j)
    → (k : Bytes) → Map.get Bytes-discrete k (store_all es m) ≡ stored es t k
get-store_all [] m t h k = h k
get-store_all (e ∷ es) m t h k =
    get-store_all es (Map.insert Bytes-discrete e.key e.value m) _
      (λ j.
        get-insert Bytes-discrete j e.key e.value m
        ∙ ap (λ o. ite (Bytes-discrete j e.key) (some e.value) o) (h j))
      k

get-delete_keys :
    (ks : List Bytes) (m : Map Bytes Bytes) (t : Bytes → Option Bytes)
    → IsMap Bytes-discrete m
    → ((j : Bytes) → Map.get Bytes-discrete j m ≡ t j)
    → (k : Bytes) → Map.get Bytes-discrete k (delete_keys ks m) ≡ removed ks t k
get-delete_keys [] m t g h k = h k
get-delete_keys (i ∷ ks) m t g h k =
    get-delete_keys ks (Map.delete Bytes-discrete i m) _ (delete-IsMap Bytes-discrete i m g)
      (λ j. get-delete Bytes-discrete j i m g ∙ ap (λ o. ite (Bytes-discrete j i) none o) (h j)) k

store_all-IsMap :
    (es : List Entry) (m : Map Bytes Bytes)
    → IsMap Bytes-discrete m
    → IsMap Bytes-discrete (store_all es m)
store_all-IsMap [] m h = h
store_all-IsMap (e ∷ es) m h = store_all-IsMap es _ (insert-IsMap Bytes-discrete e.key e.value m h)

delete_keys-IsMap :
    (ks : List Bytes) (m : Map Bytes Bytes)
    → IsMap Bytes-discrete m
    → IsMap Bytes-discrete (delete_keys ks m)
delete_keys-IsMap [] m h = h
delete_keys-IsMap (k ∷ ks) m h = delete_keys-IsMap ks _ (delete-IsMap Bytes-discrete k m h)

-- No key stands twice in the map of a context.
abbrev pub IsStore : DataStore → Type 0
IsStore = Values Bytes-discrete (IsMap Bytes-discrete)

table-IsMap : (c : Bytes) (ds : DataStore) → IsStore ds → IsMap Bytes-discrete (table c ds)
unfolding table
table-IsMap c ds h = elim (Option-cases (Map.get Bytes-discrete c ds)) [
  | inl e ↦ subst (λ o. IsMap Bytes-discrete (or_empty o)) (sym e) tt
  | inr (m, e) ↦
      subst (λ o. IsMap Bytes-discrete (or_empty o)) (sym e)
        (Values-get Bytes-discrete (IsMap Bytes-discrete) c m ds h e)
]

table-insert :
    (c c' : Bytes) (m : Map Bytes Bytes) (ds : DataStore)
    → table c' (Map.insert Bytes-discrete c m ds) ≡ ite (Bytes-discrete c' c) m (table c' ds)
unfolding table
table-insert c c' m ds =
    ap or_empty (get-insert Bytes-discrete c' c m ds) ∙ go (Bytes-discrete c' c)
  where
    go :
        (d : Dec (c' ≡ c))
        → or_empty (ite d (some m) (Map.get Bytes-discrete c' ds))
          ≡ ite d m (or_empty (Map.get Bytes-discrete c' ds))
    go (yes e) = refl
    go (no n) = refl

-- what the tables are after the map of a context is set
view-insert :
    (c : Bytes) (m : Map Bytes Bytes) (f : (Bytes → Option Bytes) → Bytes → Option Bytes)
    (ds : DataStore)
    → ((k : Bytes) → Map.get Bytes-discrete k m ≡ f (data_view ds c) k)
    → (c' k : Bytes)
    → data_view (Map.insert Bytes-discrete c m ds) c' k ≡ changed c f (data_view ds) c' k
unfolding data_view
view-insert c m f ds h c' k = rw (table-insert c c' m ds) (go (Bytes-discrete c' c))
  where
    go :
        (d : Dec (c' ≡ c))
        → Map.get Bytes-discrete k (ite d m (table c' ds))
          ≡ ite d (f (data_view ds c) k) (data_view ds c' k)
    go (yes e) = h k
    go (no n) = refl

put_stores :
    (c : Bytes) (es : List Entry) (ds : DataStore)
    → IsStore ds
    → (ds' : DataStore) × (put c es ds ≡ (ok tt, ds'))
      × IsStore ds'
      × ((c' k : Bytes) → data_view ds' c' k ≡ changed c (stored es) (data_view ds) c' k)
unfolding put
put_stores c [] ds h = (ds, refl, h, changed_same c (λ t. t) (data_view ds) λ k. refl)
put_stores c (e ∷ es) ds h =
    let m = store_all (e ∷ es) (table c ds) in
    (
      _,
      refl,
      Values-insert Bytes-discrete (IsMap Bytes-discrete) c m ds h
          (store_all-IsMap (e ∷ es) (table c ds) (table-IsMap c ds h)),
      view-insert c m (stored (e ∷ es)) ds
          (unfold data_view in get-store_all (e ∷ es) (table c ds) (data_view ds c) (λ j. refl)),
    )

removed-none :
    (ks : List Bytes) (t : Bytes → Option Bytes)
    → ((k : Bytes) → t k ≡ none)
    → (k : Bytes) → removed ks t k ≡ none
removed-none [] t h k = h k
removed-none (j ∷ ks) t h k = removed-none ks _ (λ i. go i (Bytes-discrete i j)) k
  where
    go : (i : Bytes) (d : Dec (i ≡ j)) → ite d none (t i) ≡ none
    go i (yes e) = refl
    go i (no n) = h i

data_view_at :
    (c k : Bytes) (o : Option (Map Bytes Bytes)) (ds : DataStore)
    → Map.get Bytes-discrete c ds ≡ o
    → data_view ds c k ≡ Map.get Bytes-discrete k (or_empty o)
unfolding data_view table
data_view_at c k o ds e = ap (λ p. Map.get Bytes-discrete k (or_empty p)) e

get-empty : (k : Bytes) → Map.get {V = Bytes} Bytes-discrete k [] ≡ none
unfolding Map.get
get-empty k = refl

delete_removes :
    (c : Bytes) (ks : List Bytes) (ds : DataStore)
    → IsStore ds
    → (ds' : DataStore) × (delete c ks ds ≡ (ok tt, ds'))
      × IsStore ds'
      × ((c' k : Bytes) → data_view ds' c' k ≡ changed c (removed ks) (data_view ds) c' k)
unfolding delete
delete_removes c [] ds h = (ds, refl, h, changed_same c (λ t. t) (data_view ds) λ k. refl)
delete_removes c (k ∷ ks) ds h = elim (Option-cases (Map.get Bytes-discrete c ds)) [
  | inl e ↦
      let none_there : (j : Bytes) → data_view ds c j ≡ none =
        λ j. data_view_at c j none ds e ∙ get-empty j in
      (
        ds,
        rw e refl,
        h,
        changed_same c (removed (k ∷ ks)) (data_view ds)
            λ j. none_there j ∙ sym (removed-none (k ∷ ks) (data_view ds c) none_there j),
      )
  | inr (m, e) ↦
      let g = Values-get Bytes-discrete (IsMap Bytes-discrete) c m ds h e in
      (
        Map.insert Bytes-discrete c (delete_keys (k ∷ ks) m) ds,
        rw e refl,
        Values-insert Bytes-discrete (IsMap Bytes-discrete) c _ ds h
            (delete_keys-IsMap (k ∷ ks) m g),
        view-insert c _ (removed (k ∷ ks)) ds (
            get-delete_keys (k ∷ ks) m (data_view ds c) g
              (λ j. sym (data_view_at c j (some m) ds e))),
      )
]

contains_reads :
    (c k : Bytes) (ds : DataStore) → contains c k ds ≡ (ok (is_some (data_view ds c k)), ds)
unfolding contains data_view table Map.get
contains_reads c k ds = elim (Option-cases (Map.get Bytes-discrete c ds)) [
  | inl e ↦ rw e refl
  | inr (m, e) ↦ rw e refl
]

load_reads : (c k : Bytes) (ds : DataStore) → load c k ds ≡ (ok (data_view ds c k), ds)
unfolding load data_view table Map.get
load_reads c k ds = elim (Option-cases (Map.get Bytes-discrete c ds)) [
  | inl e ↦ rw e refl
  | inr (m, e) ↦ rw e refl
]

-- The memory data store works as a table of tables: Put stores the entries in the table of its context, a
-- later entry over an earlier one, Delete removes the keys, neither changes another context, Contains and
-- Load read the table, and no call fails. No key stands twice, which every call keeps.
pub memory_data-IsTable : IsTable IsStore data_view memory_data
memory_data-IsTable = record {
  put_stores = put_stores;
  delete_removes = delete_removes;
  contains_reads = λ c k ds h. contains_reads c k ds;
  load_reads = λ c k ds h. load_reads c k ds;
}
