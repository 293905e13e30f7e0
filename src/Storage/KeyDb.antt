-- ===== src/Storage/KeyDb.antt =====
-- storage/keydb/storage.go: the storage over KeyDB, which keeps the peers of a swarm in sets whose members
-- expire. The client of github.com/redis/go-redis is a parameter.
pub mod Refines
use mochi.Base.{
  ℕ, Bool, true, false, Option, none, some, List, [], ◌∷◌, ◌==◌, if◌then◌else◌, length,
}
use mochi.Base.Bytes.{Bytes}
use mochi.Base.Int.{ℤ, pos, negsuc}
use mochi.Netip.{is6}
use mochi.Result.{
  Error, other_error, Result, ok, err, panic, Act, and_then, err_resource_does_not_exist,
}
use mochi.Bittorrent.Peer.{Peer, addr}
use mochi.Bittorrent.Hash.{InfoHash}
use mochi.Storage.Redis.{Client, info_hash_key, pack_peer, count_downloads_key, no_result_err}
use mochi.Storage.Redis.Read.{cleaned, get_peers, scrape_ih}

-- redis.UniversalClient, as this store calls it besides the store of Redis.
pub record SetClient (S : Type 0) : Type 0 where
  pub sadd : Bytes → Bytes → Act S (Unit {0})
  pub expire_member : Bytes → Bytes → ℕ → Act S (Unit {0})
  pub srem : Bytes → Bytes → Act S ℕ
  pub smove : Bytes → Bytes → Bytes → Act S Bool
  pub hincr_by : Bytes → Bytes → ℕ → Act S (Unit {0})
  pub srand_member_n : Bytes → ℕ → Act S (List Bytes)
  pub scard : Bytes → Act S ℕ

-- `COMMAND INFO EXPIREMEMBER`: the commands it names
abbrev pub err_not_key_db : Error
err_not_key_db = other_error "provided instance seems not KeyDB"

unfoldable pub checked : Result ℕ → Result (Unit {0})
checked (ok n) = if n == 0 then err err_not_key_db else ok tt
checked (err e) = err e
checked panic = panic

module _ {S : Type 0} (c : SetClient S) (peer_ttl : ℕ) where
  unfoldable pub add_peer : Bytes → Bytes → Act S (Unit {0})
  add_peer info_hash_key peer_id s =
      and_then (c.sadd info_hash_key peer_id s)
        λ u s'. c.expire_member info_hash_key peer_id peer_ttl s'

  unfoldable pub deleted : Result ℕ × S → Result (Unit {0}) × S
  deleted (ok n, s) = (if n == 0 then err err_resource_does_not_exist else ok tt, s)
  deleted (err e, s) = (err e, s)
  deleted (panic, s) = (panic, s)

  unfoldable pub del_peer : Bytes → Bytes → Act S (Unit {0})
  del_peer info_hash_key peer_id s = deleted (cleaned 0 (c.srem info_hash_key peer_id s))

  unfoldable pub put_seeder : InfoHash → Peer → Act S (Unit {0})
  put_seeder ih peer = add_peer (info_hash_key ih true (is6 (addr peer))) (pack_peer peer)

  unfoldable pub delete_seeder : InfoHash → Peer → Act S (Unit {0})
  delete_seeder ih peer = del_peer (info_hash_key ih true (is6 (addr peer))) (pack_peer peer)

  unfoldable pub put_leecher : InfoHash → Peer → Act S (Unit {0})
  put_leecher ih peer = add_peer (info_hash_key ih false (is6 (addr peer))) (pack_peer peer)

  unfoldable pub delete_leecher : InfoHash → Peer → Act S (Unit {0})
  delete_leecher ih peer = del_peer (info_hash_key ih false (is6 (addr peer))) (pack_peer peer)

  -- The member expires, and the download is counted, only if an error stands: `if err != nil`.
  unfoldable pub after_sadd :
      Bytes → Bytes → InfoHash → Result (Unit {0}) × S → Result (Unit {0}) × S
  after_sadd seeder_key peer_id ih (ok u, s) = (ok tt, s)
  after_sadd seeder_key peer_id ih (err e, s) =
      and_then (c.expire_member seeder_key peer_id peer_ttl s)
        λ u s'. c.hincr_by count_downloads_key ih 1 s'
  after_sadd seeder_key peer_id ih (panic, s) = (panic, s)

  unfoldable pub after_smove : Bytes → Bytes → InfoHash → Bool → Act S (Unit {0})
  after_smove seeder_key peer_id ih true s = after_sadd seeder_key peer_id ih (ok tt, s)
  after_smove seeder_key peer_id ih false s =
      after_sadd seeder_key peer_id ih (c.sadd seeder_key peer_id s)

  unfoldable pub graduate_leecher : InfoHash → Peer → Act S (Unit {0})
  graduate_leecher ih peer s =
      let v6 = is6 (addr peer) in
      and_then (c.smove (info_hash_key ih false v6) (info_hash_key ih true v6) (pack_peer peer) s)
        (after_smove (info_hash_key ih true v6) (pack_peer peer) ih)

  unfoldable pub announce_peers : InfoHash → Bool → ℕ → Bool → Act S (List Peer)
  announce_peers = get_peers c.srand_member_n

  unfoldable pub scrape_swarm : Client S → InfoHash → Act S (ℕ × ℕ × ℕ)
  scrape_swarm r = scrape_ih r c.scard
