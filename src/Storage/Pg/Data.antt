-- ===== src/Storage/Pg/Data.antt =====
-- storage/pg/storage.go: the data storage.
use mochi.Base.{Bool, true, false, Option, none, some, List, [], ◌∷◌, map, if◌then◌else◌}
use mochi.Base.Bytes.{Bytes}
use mochi.Result.{Result, ok, err, panic, Act}
use mochi.Storage.Data.{Entry, DataStorage}
use mochi.Storage.Pg.Config.{Config}
use mochi.Storage.Pg.Pool.{
  Pool, NamedArgs, text, blob, blobs, Row, Rows, p_ctx, p_key, p_value, is_no_rows, tx_batch,
}

abbrev pub entry_args : Bytes → Entry → NamedArgs
entry_args ctx v = (p_ctx, text ctx) ∷ (p_key, blob v.key) ∷ (p_value, blob v.value) ∷ []

abbrev pub key_args : Bytes → Bytes → NamedArgs
key_args ctx k = (p_ctx, text ctx) ∷ (p_key, blob k) ∷ []

-- rows.Next, and the error behind the rows
abbrev pub has_row : List Row → Bool
has_row [] = false
has_row (r ∷ rs) = true

abbrev pub any_row : Rows → Result Bool
any_row rows = elim rows.error [ none ↦ ok (has_row rows.rows) | some e ↦ err e ]

module _ {S : Type 0} (pool : Pool S) (cfg : Config) where
  unfoldable pub put : Bytes → List Entry → Act S (Unit {0})
  put ctx [] s = (ok tt, s)
  put ctx (v ∷ []) s = pool.exec cfg.values.add_query (entry_args ctx v) s
  put ctx (v ∷ w ∷ vs) s =
      tx_batch pool (map (λ x. (cfg.values.add_query, entry_args ctx x)) (v ∷ w ∷ vs)) s

  unfoldable pub found : Result Rows × S → Result Bool × S
  found (ok rows, s) = (any_row rows, s)
  found (err e, s) = (err e, s)
  found (panic, s) = (panic, s)

  unfoldable pub contains : Bytes → Bytes → Act S Bool
  contains ctx k s = found (pool.query cfg.values.get_query (key_args ctx k) s)

  -- no row leaves the value nil
  unfoldable pub loaded : Result Bytes × S → Result (Option Bytes) × S
  loaded (ok v, s) = (ok (some v), s)
  loaded (err e, s) = (if is_no_rows e then ok none else err e, s)
  loaded (panic, s) = (panic, s)

  unfoldable pub load : Bytes → Bytes → Act S (Option Bytes)
  load ctx k s = loaded (pool.query_bytes cfg.values.get_query (key_args ctx k) s)

  unfoldable pub delete : Bytes → List Bytes → Act S (Unit {0})
  delete ctx [] s = (ok tt, s)
  delete ctx (k ∷ ks) s =
      pool.exec cfg.values.del_query ((p_ctx, text ctx) ∷ (p_key, blobs (k ∷ ks)) ∷ []) s

  abbrev pub pg_data : DataStorage S
  pg_data = record {
    put = put;
    contains = contains;
    load = load;
    delete = delete;
    preservable = true;
  }
