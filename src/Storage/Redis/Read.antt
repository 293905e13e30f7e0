-- ===== src/Storage/Redis/Read.antt =====
-- storage/redis/storage.go: the peers that are handed out, and the counts of a scrape.
use mochi.Base.{
  ℕ, ◌+◌, ◌-◌, ◌%◌, ◌^◌, Bool, true, false, Option, none, some, List, [], ◌∷◌, ◌++◌, leb,
  if◌then◌else◌, length,
}
use mochi.Base.Bytes.{Bytes}
use mochi.Base.Int.{ℤ, pos, negsuc}
use mochi.Result.{Error, Result, ok, err, panic, Act, and_then, err_resource_does_not_exist}
use mochi.Bittorrent.Peer.{Peer}
use mochi.Bittorrent.Hash.{InfoHash}
use mochi.Storage.Redis.{Client, no_result_err, info_hash_key, unpack_peer, count_downloads_key}

abbrev pub keep : Result Peer → List Peer → List Peer
keep (ok p) ps = p ∷ ps
keep (err e) ps = ps
keep panic ps = ps

-- the loop of parsePeersList: what cannot be decoded is logged and left out
unfoldable pub decoded : List Bytes → List Peer
decoded [] = []
decoded (id ∷ ids) = keep (unpack_peer id) (decoded ids)

-- A command's result, where redis.Nil is none.
abbrev pub cleaned : {S A : Type 0} → A → Result A × S → Result A × S
cleaned a (r, s) = (no_result_err a r, s)

-- the keys that GetPeers looks at
unfoldable pub keys_of : InfoHash → Bool → Bool → List Bytes
keys_of ih for_seeder v6 =
    if for_seeder
    then info_hash_key ih false v6 ∷ []
    else info_hash_key ih true v6 ∷ info_hash_key ih false v6 ∷ []

-- An error is forgotten where there are peers.
abbrev pub settled : List Peer × Option Error → Result (List Peer)
settled ([], none) = err err_resource_does_not_exist
settled ([], some e) = err e
settled (p ∷ ps, e) = ok (p ∷ ps)

module _ {S : Type 0} (members : Bytes → ℕ → Act S (List Bytes)) where
  -- The loop: the peers so far, and the error that ended it. `next` goes on with the other keys.
  abbrev pub collected :
      ℕ
      → List Peer
      → (ℕ → List Peer → S → Result (List Peer × Option Error) × S)
      → Result (List Bytes) × S
      → Result (List Peer × Option Error) × S
  collected max_count out next (ok ids, s) =
      if leb max_count (length (decoded ids))
      then (ok (out ++ decoded ids, none), s)
      else next (max_count - length (decoded ids)) (out ++ decoded ids) s
  collected max_count out next (err e, s) = (ok (out, some e), s)
  collected max_count out next (panic, s) = (panic, s)

  unfoldable pub collect_keys :
      List Bytes → ℕ → List Peer → S → Result (List Peer × Option Error) × S
  collect_keys [] max_count out s = (ok (out, none), s)
  collect_keys (k ∷ ks) max_count out s =
      collected max_count out (collect_keys ks) (cleaned [] (members k max_count s))

  -- GetPeers, with HRANDFIELD as `members`
  unfoldable pub get_peers : InfoHash → Bool → ℕ → Bool → Act S (List Peer)
  get_peers ih for_seeder max_count v6 s =
      and_then (collect_keys (keys_of ih for_seeder v6) max_count [] s)
        λ found s'. (settled found, s')

-- `uint32(n)` of an int64
abbrev pub to_uint32 : ℤ → ℕ
to_uint32 (pos n) = n % 2 ^ 32
to_uint32 (negsuc n) = 2 ^ 32 - 1 - n % 2 ^ 32

module _ {S : Type 0} (c : Client S) (count : Bytes → Act S ℕ) where
  counted : InfoHash → Bool → Bool → Act S ℕ
  counted ih seeder v6 s = cleaned 0 (count (info_hash_key ih seeder v6) s)

  -- ScrapeIH, with HLEN as `count`: leechers, seeders and snatches
  unfoldable pub scrape_ih : InfoHash → Act S (ℕ × ℕ × ℕ)
  unfolding counted
  scrape_ih ih s = and_then (counted ih false false s) λ lc4 s1.
      and_then (counted ih false true s1) λ lc6 s2. and_then (counted ih true false s2) λ sc4 s3.
        and_then (counted ih true true s3) λ sc6 s4.
          and_then (cleaned (pos 0) (c.hget_int count_downloads_key ih s4))
            λ dc s5. (ok ((lc4 + lc6) % 2 ^ 32, (sc4 + sc6) % 2 ^ 32, to_uint32 dc), s5)

module _ {S : Type 0} (c : Client S) where
  unfoldable pub announce_peers : InfoHash → Bool → ℕ → Bool → Act S (List Peer)
  announce_peers = get_peers c.hrand_field

  unfoldable pub scrape_swarm : InfoHash → Act S (ℕ × ℕ × ℕ)
  scrape_swarm = scrape_ih c c.hlen
