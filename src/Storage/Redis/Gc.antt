-- ===== src/Storage/Redis/Gc.antt =====
-- storage/redis/storage.go: the garbage collector. strconv.ParseInt is a parameter.
pub mod Rows
pub mod Collects
pub mod Cleans
pub mod Refines
use mochi.Base.{
  ℕ, ◌+◌, Bool, true, false, ◌||◌, Option, none, some, List, [], ◌∷◌, ltb, ◌==◌, if◌then◌else◌,
}
use mochi.Base.Bytes.{Bytes, has_prefix}
use mochi.Base.Int.{ℤ, leb_ℤ}
use mochi.Result.{Error, Result, ok, err, panic, Act, and_then}
use mochi.Storage.Redis.{
  ih_key, ih4_seeder_key, ih6_seeder_key, ih4_leecher_key, ih6_leecher_key, count_seeder_key,
  count_leecher_key, is_nil, no_result_err,
}
use mochi.Storage.Redis.Data.{is_arg_num}
use mochi.Storage.Redis.Read.{cleaned}

-- The commands of the client that only the collector needs. `hget_all` gives the fields and their texts in the
-- order in which the loop visits the map, and `watch` runs a function while a key is watched.
pub record GcClient (S : Type 0) : Type 0 where
  pub smembers : Bytes → Act S (List Bytes)
  pub hget_all : Bytes → Act S (List (Bytes × Bytes))
  pub hdel_all : Bytes → List Bytes → Act S ℕ
  pub hdel_one : Bytes → Bytes → Act S ℕ
  pub decr_by : Bytes → ℕ → Act S (Unit {0})
  pub hlen : Bytes → Act S ℕ
  pub srem : Bytes → Bytes → Act S (Unit {0})
  pub watch : Bytes → Act S (Unit {0}) → Act S (Unit {0})

-- the counter of the peers of a key, where it is the key of a swarm
unfoldable pub counter_of : Bytes → Option Bytes
counter_of k =
    if has_prefix k ih4_seeder_key || has_prefix k ih6_seeder_key
    then some count_seeder_key
    else if has_prefix k ih4_leecher_key || has_prefix k ih6_leecher_key
    then some count_leecher_key
    else none

-- An error is logged.
unfoldable pub logged : {S A : Type 0} → Result A × S → Result (Unit {0}) × S
logged (ok a, s) = (ok tt, s)
logged (err e, s) = (ok tt, s)
logged (panic, s) = (panic, s)

-- A text that is no number is logged, and its peer stays.
unfoldable pub is_stale : ℤ → Option ℤ → Bool
is_stale cutoff none = false
is_stale cutoff (some mtime) = leb_ℤ mtime cutoff

module _ {S : Type 0} (parse_int : Bytes → Option ℤ) (c : GcClient S) where
  unfoldable pub peers_to_remove : ℤ → List (Bytes × Bytes) → List Bytes
  peers_to_remove cutoff [] = []
  peers_to_remove cutoff ((id, time_stamp) ∷ es) =
      let rest = peers_to_remove cutoff es in
      if is_stale cutoff (parse_int time_stamp) then id ∷ rest else rest

  -- one HDEL in the loop, with the count so far
  unfoldable pub counted_one : ℕ → Result ℕ × S → (ℕ → Act S ℕ) → Result ℕ × S
  counted_one n (ok m, s) next = next (n + m) s
  counted_one n (err e, s) next = next n s
  counted_one n (panic, s) next = (panic, s)

  unfoldable pub delete_each : Bytes → List Bytes → ℕ → Act S ℕ
  delete_each k [] n s = (ok n, s)
  delete_each k (p ∷ ps) n s =
      counted_one n (cleaned 0 (c.hdel_one k p s)) λ m s'. delete_each k ps m s'

  -- after one HDEL of all peers; a server may take one field only
  unfoldable pub all_deleted : Bytes → List Bytes → Result ℕ × S → Result ℕ × S
  all_deleted k ps (ok n, s) = (ok n, s)
  all_deleted k ps (err e, s) =
      let each = delete_each k ps 0 s in
      if is_nil e then (ok 0, s) else if is_arg_num e then each else (ok 0, s)
  all_deleted k ps (panic, s) = (panic, s)

  unfoldable pub delete_peers : Bytes → List Bytes → Act S ℕ
  delete_peers k ps s = all_deleted k ps (c.hdel_all k ps s)

  unfoldable pub count_down : Bytes → ℕ → Act S (Unit {0})
  count_down count_key n s = if ltb 0 n then logged (c.decr_by count_key n s) else (ok tt, s)

  unfoldable pub remove_peers : Bytes → Bytes → List Bytes → Act S (Unit {0})
  remove_peers count_key k [] s = (ok tt, s)
  remove_peers count_key k (p ∷ ps) s = and_then (delete_peers k (p ∷ ps) s) (count_down count_key)

  -- the function that runs under Watch: a swarm without peers is no longer listed
  unfoldable pub remove_empty : Bytes → Act S (Unit {0})
  remove_empty k s =
      and_then (cleaned 0 (c.hlen k s))
        λ n s'. if n == 0 then cleaned tt (c.srem ih_key k s') else (ok tt, s')

  unfoldable pub gc_peers :
      ℤ → Bytes → Bytes → Result (List (Bytes × Bytes)) × S → Result (Unit {0}) × S
  gc_peers cutoff count_key k (ok peers, s) =
      and_then (remove_peers count_key k (peers_to_remove cutoff peers) s)
        λ u s'. logged (c.watch k (remove_empty k) s')
  gc_peers cutoff count_key k (err e, s) = (ok tt, s)
  gc_peers cutoff count_key k (panic, s) = (panic, s)

  -- one round of the loop over the keys
  unfoldable pub gc_key : ℤ → Bytes → Option Bytes → Act S (Unit {0})
  gc_key cutoff k none s = (ok tt, s)
  gc_key cutoff k (some count_key) s = gc_peers cutoff count_key k (cleaned [] (c.hget_all k s))

  unfoldable pub gc_keys : ℤ → List Bytes → Act S (Unit {0})
  gc_keys cutoff [] s = (ok tt, s)
  gc_keys cutoff (k ∷ ks) s =
      and_then (gc_key cutoff k (counter_of k) s) λ u s'. gc_keys cutoff ks s'

  unfoldable pub gc_listed : ℤ → Result (List Bytes) × S → Result (Unit {0}) × S
  gc_listed cutoff (ok ks, s) = gc_keys cutoff ks s
  gc_listed cutoff (err e, s) = (ok tt, s)
  gc_listed cutoff (panic, s) = (panic, s)

  unfoldable pub gc : ℤ → Act S (Unit {0})
  gc cutoff s = gc_listed cutoff (cleaned [] (c.smembers ih_key s))
