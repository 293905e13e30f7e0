-- ===== src/Storage/Redis/Write.antt =====
-- storage/redis/storage.go: the calls that change the peers of a swarm.
use mochi.Base.{ℕ, Bool, true, false, Option, none, some, List, [], ◌∷◌, ◌==◌, ltb, if◌then◌else◌}
use mochi.Base.Bytes.{Bytes}
use mochi.Base.Int.{ℤ}
use mochi.Netip.{is6}
use mochi.Result.{
  Error, other_error, Result, ok, err, panic, ◌>>=◌, Act, err_resource_does_not_exist,
}
use mochi.Bittorrent.Peer.{Peer, addr}
use mochi.Bittorrent.Hash.{InfoHash}
use mochi.Storage.Redis.{
  Client, Command, hset, hdel, hincr_by, incr, decr, sadd, no_result_err, info_hash_key, pack_peer,
  ih_key, count_seeder_key, count_leecher_key, count_downloads_key,
}

-- The text of the source joins those of the commands.
abbrev pub err_commands : Error
err_commands = other_error "redis: commands of a transaction"

abbrev pub any_error : List (Option Error) → Bool
any_error [] = false
any_error (none ∷ es) = any_error es
any_error (some e ∷ es) = true

abbrev tx_outcome : {S : Type 0} → Result (List (Option Error)) × S → Result (Unit {0}) × S
tx_outcome (ok es, s) = (if any_error es then err err_commands else ok tt, s)
tx_outcome (err e, s) = (err e, s)
tx_outcome (panic, s) = (panic, s)

module _ {S : Type 0} (c : Client S) where
  -- store.tx: the function queues commands; where it fails, none is run
  unfoldable pub tx : Result (List Command) → Act S (Unit {0})
  tx (ok cmds) s = tx_outcome (c.tx_pipelined cmds s)
  tx (err e) s = (err e, s)
  tx panic s = (panic, s)

  unfoldable pub put_commands : ℤ → Bytes → Bytes → Bytes → Result (List Command)
  put_commands now ih_set_key peer_count_key id = do
    n ← c.queued (hset ih_set_key id now)
    n ← c.queued (incr peer_count_key)
    n ← c.queued (sadd ih_key ih_set_key)
    ok (hset ih_set_key id now ∷ incr peer_count_key ∷ sadd ih_key ih_set_key ∷ [])

  unfoldable pub put_peer : ℤ → Bytes → Bytes → Bytes → Act S (Unit {0})
  put_peer now ih_set_key peer_count_key id s = tx (put_commands now ih_set_key peer_count_key id) s

  abbrev erased : Result ℕ × S → Result (Unit {0}) × S
  erased (ok n, s) = (ok tt, s)
  erased (err e, s) = (err e, s)
  erased (panic, s) = (panic, s)

  abbrev after_hdel : Bytes → Result ℕ → S → Result (Unit {0}) × S
  after_hdel peer_count_key (ok deleted) s =
      if deleted == 0
      then (err err_resource_does_not_exist, s)
      else erased (c.decr_one peer_count_key s)
  after_hdel peer_count_key (err e) s = (err e, s)
  after_hdel peer_count_key panic s = (panic, s)

  unfoldable pub del_peer : Bytes → Bytes → Bytes → Act S (Unit {0})
  del_peer ih_set_key peer_count_key id s =
      let (r, s') = c.hdel_one ih_set_key id s in after_hdel peer_count_key (no_result_err 0 r) s'

  unfoldable pub queue_all : List Command → Result (Unit {0})
  queue_all [] = ok tt
  queue_all (cmd ∷ cmds) = do n ← c.queued cmd; queue_all cmds

  module _ (ih : InfoHash) (p : Peer) where
    unfoldable pub put_seeder : ℤ → Act S (Unit {0})
    put_seeder now =
        put_peer now (info_hash_key ih true (is6 (addr p))) count_seeder_key (pack_peer p)

    unfoldable pub delete_seeder : Act S (Unit {0})
    delete_seeder = del_peer (info_hash_key ih true (is6 (addr p))) count_seeder_key (pack_peer p)

    unfoldable pub put_leecher : ℤ → Act S (Unit {0})
    put_leecher now =
        put_peer now (info_hash_key ih false (is6 (addr p))) count_leecher_key (pack_peer p)

    unfoldable pub delete_leecher : Act S (Unit {0})
    delete_leecher =
        del_peer (info_hash_key ih false (is6 (addr p))) count_leecher_key (pack_peer p)

    -- the commands after the leecher is deleted: its counter, then those of a new seeder
    abbrev seeded : ℤ → List Command
    seeded now =
        hset (info_hash_key ih true (is6 (addr p))) (pack_peer p) now
        ∷ incr count_seeder_key
        ∷ sadd ih_key (info_hash_key ih true (is6 (addr p)))
        ∷ hincr_by count_downloads_key ih 1
        ∷ []

    unfoldable pub graduate_commands : ℤ → Result (List Command)
    graduate_commands now =
        let gone = hdel (info_hash_key ih false (is6 (addr p))) (pack_peer p) in
        do
          deleted ← no_result_err 0 (c.queued gone)
          u ← (if ltb 0 deleted then queue_all (decr count_leecher_key ∷ []) else ok tt)
          u ← queue_all (seeded now)
          ok (gone ∷ (if ltb 0 deleted then decr count_leecher_key ∷ seeded now else seeded now))

    unfoldable pub graduate_leecher : ℤ → Act S (Unit {0})
    graduate_leecher now s = tx (graduate_commands now) s
