-- ===== src/Storage/Memory.antt =====
-- storage/memory/storage.go: the peer store in memory. An operation of the source that takes one
-- lock after another is run here without another one in between.
pub mod Read
pub mod Gc
pub mod Counters
pub mod View
pub mod Purge
pub mod Collect
pub mod Select
pub mod Fresh
pub mod Announce
pub mod Refines
pub mod Tracker
use mochi.Base.{
  ℕ, ◌+◌, ◌*◌, ◌-◌, ◌/◌, ◌%◌, ◌^◌, Bool, true, false, List, [], ◌∷◌, Option, none, some, ◌==◌, ltb,
  if◌then◌else◌, length, get_elem?, set, take, replicate,
}
use mochi.Base.Bytes.{Bytes-discrete, uint_be}
use mochi.Base.Int.{ℤ, pos, negsuc, leb_ℤ}
use mochi.Base.Map
use mochi.Base.Map.{Map}
use mochi.Netip.{is6}
use mochi.Result.{Result, ok, err, panic, ◌>>=◌, Act, err_resource_does_not_exist}
use mochi.Bittorrent.Peer.{Peer, Peer-discrete, addr}
use mochi.Bittorrent.Hash.{InfoHash}

-- The peers of one kind with the time of their last announce.
abbrev pub Peers : Type 0
Peers = Map Peer ℤ

pub record Swarm : Type 0 where
  pub seeders : Peers
  pub leechers : Peers

pub record Shard : Type 0 where
  pub swarms : Map InfoHash Swarm
  pub num_seeders : ℕ
  pub num_leechers : ℕ

pub record PeerStore : Type 0 where
  pub closed : Bool
  pub shards : List Shard

abbrev pub default_shard_count : ℕ
default_shard_count = 1024

abbrev pub max_int : ℕ
max_int = 2 ^ 63 - 1

-- Config.Validate
unfoldable pub validate : ℤ → ℕ
validate (negsuc n) = default_shard_count
validate (pos n) =
    if n == 0 then default_shard_count else if ltb (max_int / 2) n then default_shard_count else n

abbrev pub empty_swarm : Swarm
empty_swarm = record { seeders = []; leechers = [] }

abbrev pub empty_shard : Shard
empty_shard = record { swarms = []; num_seeders = 0; num_leechers = 0 }

-- NewPeerStorage
unfoldable pub new_peer_storage : ℤ → PeerStore
new_peer_storage shard_count = record {
  closed = false;
  shards = replicate (validate shard_count * 2) empty_shard;
}

-- atomic.Uint64: Add(1) and Add(decrUint64)
abbrev pub increment : ℕ → ℕ
increment n = (n + 1) % 2 ^ 64

abbrev pub decrement : ℕ → ℕ
decrement n = (n + (2 ^ 64 - 1)) % 2 ^ 64

-- The slice expression needs four bytes, and the remainder a divisor that is not 0.
unfoldable pub shard_index : PeerStore → InfoHash → Bool → Result ℕ
shard_index ps info_hash v6 =
    let half = length ps.shards % 2 ^ 32 / 2 in
    let idx = uint_be (take 4 info_hash) % half in
    if ltb (length info_hash) 4
    then panic
    else if half == 0
    then panic
    else ok (if v6 then (idx + length ps.shards / 2 % 2 ^ 32) % 2 ^ 32 else idx)

-- `ps.shards[ps.shardIndex(ih, v6)]`
unfoldable pub select_shard : PeerStore → InfoHash → Bool → Result (ℕ × Shard)
select_shard ps ih v6 = do
  i ← shard_index ps ih v6
  elim (get_elem? ps.shards i) [ none ↦ panic | some sh ↦ ok (i, sh) ]

-- A call that works on the shard of a hash.
unfoldable pub on_shard {ℓ} :
    {A : Type ℓ} → PeerStore → InfoHash → Bool → (Shard → Result A × Shard) → Result A × PeerStore
on_shard ps ih v6 f = elim (select_shard ps ih v6) [
  | ok (i, sh) ↦ let (r, sh') = f sh in (r, record ps { shards = set ps.shards i sh' })
  | err e ↦ (err e, ps)
  | panic ↦ (panic, ps)
]

-- The swarm of a hash, made where there is none; its writes go back by `put_swarm`.
unfoldable pub get_or_create : InfoHash → Shard → Swarm
get_or_create ih sh = elim (Map.get Bytes-discrete ih sh.swarms) [
  | none ↦ empty_swarm
  | some sw ↦ sw
]

abbrev pub put_swarm : InfoHash → Swarm → Shard → Shard
put_swarm ih sw sh = record sh { swarms = Map.insert Bytes-discrete ih sw sh.swarms }

-- The five operations on a shard, after the shard has been selected.
unfoldable pub shard_put_seeder : ℤ → InfoHash → Peer → Shard → Result (Unit {0}) × Shard
shard_put_seeder now ih p sh =
    let sw = get_or_create ih sh in
    let n =
      if Map.contains Peer-discrete p sw.seeders
      then sh.num_seeders
      else increment sh.num_seeders in
    (
      ok tt,
      put_swarm ih (record sw { seeders = Map.insert Peer-discrete p now sw.seeders })
          (record sh { num_seeders = n }),
    )

unfoldable pub shard_delete_seeder : InfoHash → Peer → Shard → Result (Unit {0}) × Shard
shard_delete_seeder ih p sh = elim (Map.get Bytes-discrete ih sh.swarms) [
  | none ↦ (err err_resource_does_not_exist, sh)
  | some sw ↦
      if Map.contains Peer-discrete p sw.seeders
      then (
        ok tt,
        put_swarm ih (record sw { seeders = Map.delete Peer-discrete p sw.seeders })
            (record sh { num_seeders = decrement sh.num_seeders }),
      )
      else (ok tt, sh)
]

unfoldable pub shard_put_leecher : ℤ → InfoHash → Peer → Shard → Result (Unit {0}) × Shard
shard_put_leecher now ih p sh =
    let sw = get_or_create ih sh in
    let n =
      if Map.contains Peer-discrete p sw.leechers
      then sh.num_leechers
      else increment sh.num_leechers in
    (
      ok tt,
      put_swarm ih (record sw { leechers = Map.insert Peer-discrete p now sw.leechers })
          (record sh { num_leechers = n }),
    )

unfoldable pub shard_delete_leecher : InfoHash → Peer → Shard → Result (Unit {0}) × Shard
shard_delete_leecher ih p sh = elim (Map.get Bytes-discrete ih sh.swarms) [
  | none ↦ (err err_resource_does_not_exist, sh)
  | some sw ↦
      if Map.contains Peer-discrete p sw.leechers
      then (
        ok tt,
        put_swarm ih (record sw { leechers = Map.delete Peer-discrete p sw.leechers })
            (record sh { num_leechers = decrement sh.num_leechers }),
      )
      else (ok tt, sh)
]

unfoldable pub shard_graduate_leecher : ℤ → InfoHash → Peer → Shard → Result (Unit {0}) × Shard
shard_graduate_leecher now ih p sh =
    let sw = get_or_create ih sh in
    let l =
      if Map.contains Peer-discrete p sw.leechers
      then decrement sh.num_leechers
      else sh.num_leechers in
    let n =
      if Map.contains Peer-discrete p sw.seeders
      then sh.num_seeders
      else increment sh.num_seeders in
    (
      ok tt,
      put_swarm ih
          (record {
            seeders = Map.insert Peer-discrete p now sw.seeders;
            leechers = Map.delete Peer-discrete p sw.leechers;
          })
          (record sh { num_seeders = n; num_leechers = l }),
    )

-- The operations; `now` is timecache.NowUnixNano(). A closed store panics.
unfoldable pub put_seeder : ℤ → InfoHash → Peer → Act PeerStore (Unit {0})
put_seeder now ih p ps =
    if ps.closed then (panic, ps) else on_shard ps ih (is6 (addr p)) (shard_put_seeder now ih p)

unfoldable pub delete_seeder : InfoHash → Peer → Act PeerStore (Unit {0})
delete_seeder ih p ps =
    if ps.closed then (panic, ps) else on_shard ps ih (is6 (addr p)) (shard_delete_seeder ih p)

unfoldable pub put_leecher : ℤ → InfoHash → Peer → Act PeerStore (Unit {0})
put_leecher now ih p ps =
    if ps.closed then (panic, ps) else on_shard ps ih (is6 (addr p)) (shard_put_leecher now ih p)

unfoldable pub delete_leecher : InfoHash → Peer → Act PeerStore (Unit {0})
delete_leecher ih p ps =
    if ps.closed then (panic, ps) else on_shard ps ih (is6 (addr p)) (shard_delete_leecher ih p)

unfoldable pub graduate_leecher : ℤ → InfoHash → Peer → Act PeerStore (Unit {0})
graduate_leecher now ih p ps =
    if ps.closed
    then (panic, ps)
    else on_shard ps ih (is6 (addr p)) (shard_graduate_leecher now ih p)

unfoldable pub close : PeerStore → PeerStore
close ps = record ps { closed = true }
