-- ===== src/Storage/Memory/Gc.antt =====
-- storage/memory/storage.go: `gc`, which drops the peers that have not announced since the cutoff.
use mathlib.Core.List.{foldl}
use mochi.Base.{List, [], ◌∷◌, ◌++◌, ℕ, map, none, some, ◌&&◌, ◌==◌, if◌then◌else◌, length}
use mochi.Base.Bytes.{Bytes-discrete}
use mochi.Base.Int.{ℤ, leb_ℤ}
use mochi.Base.Map
use mochi.Bittorrent.Peer.{Peer, Peer-discrete}
use mochi.Bittorrent.Hash.{InfoHash}
use mochi.Storage.Memory.{Peers, Shard, PeerStore, decrement, put_swarm}

-- the peers that `forEach` appends to `toDel`
unfoldable pub to_del : ℤ → List Peer → Peers → List Peer
to_del cutoff dels [] = dels
to_del cutoff dels ((p, mtime) ∷ m) =
    to_del cutoff (if leb_ℤ mtime cutoff then dels ++ p ∷ [] else dels) m

-- deletes them, and counts down
unfoldable pub delete_all : List Peer → Peers × ℕ → Peers × ℕ
delete_all [] s = s
delete_all (p ∷ dels) (m, n) =
    delete_all dels (
      if Map.contains Peer-discrete p m
      then (Map.delete Peer-discrete p m, decrement n)
      else (m, n))

unfoldable pub purge : ℤ → Peers × ℕ → Peers × ℕ
purge cutoff (m, n) = delete_all (to_del cutoff [] m) (m, n)

-- the body of the loop over the hashes of a shard
unfoldable pub gc_swarm : ℤ → Shard → InfoHash → Shard
gc_swarm cutoff sh ih = elim (Map.get Bytes-discrete ih sh.swarms) [
  | none ↦ sh
  | some sw ↦
      let (leechers, nl) = purge cutoff (sw.leechers, sh.num_leechers) in
      let (seeders, ns) = purge cutoff (sw.seeders, sh.num_seeders) in
      let counted = record sh { num_seeders = ns; num_leechers = nl } in
      if length leechers == 0 && length seeders == 0
      then record counted { swarms = Map.delete Bytes-discrete ih sh.swarms }
      else put_swarm ih (record { seeders = seeders; leechers = leechers }) counted
]

unfoldable pub gc_shard : ℤ → Shard → Shard
gc_shard cutoff sh = foldl (gc_swarm cutoff) sh (map (λ e. e.0) sh.swarms)

unfoldable pub gc : ℤ → PeerStore → PeerStore
gc cutoff ps = if ps.closed then ps else record ps { shards = map (gc_shard cutoff) ps.shards }
