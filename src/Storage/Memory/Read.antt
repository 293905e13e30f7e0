-- ===== src/Storage/Memory/Read.antt =====
-- storage/memory/storage.go: the operations that read the peer store.
use mochi.Base.{
  ℕ, ◌+◌, ◌-◌, ◌%◌, ◌^◌, Bool, true, false, List, [], ◌∷◌, ◌++◌, map, none, some, ltb,
  if◌then◌else◌, length,
}
use mochi.Base.Bytes.{Bytes-discrete}
use mochi.Base.Map
use mochi.Result.{Result, ok, panic, ◌>>=◌, Act}
use mochi.Bittorrent.Peer.{Peer}
use mochi.Bittorrent.Hash.{InfoHash}
use mochi.Storage.Memory.{Peers, Swarm, PeerStore, select_shard}

abbrev pub keys : Peers → List Peer
keys = map (λ e. e.0)

-- `peers.keys(rangeFn)` over the keys in the order in which Go visits them: the peers found and the
-- number still wanted, and whether the loop ran to its end. The number starts above 0.
unfoldable pub range_keys : List Peer → List Peer → ℕ → (List Peer × ℕ) × Bool
range_keys [] peers num_want = ((peers, num_want), true)
range_keys (p ∷ ks) peers num_want =
    let more = range_keys ks (peers ++ p ∷ []) (num_want - 1) in
    if ltb 0 (num_want - 1) then more else ((peers ++ p ∷ [], num_want - 1), false)

-- `range` is the order in which Go visits the keys of a map.
unfoldable pub swarm_peers : (List Peer → List Peer) → Swarm → Bool → ℕ → List Peer
swarm_peers range sw for_seeder num_want =
    if for_seeder
    then (range_keys (range (keys sw.leechers)) [] num_want).0.0
    else let ((peers, left), all) = range_keys (range (keys sw.seeders)) [] num_want in
      if all then (range_keys (range (keys sw.leechers)) peers left).0.0 else peers

unfoldable pub announce_peers :
    (List Peer → List Peer) → InfoHash → Bool → ℕ → Bool → Act PeerStore (List Peer)
announce_peers range ih for_seeder num_want v6 ps = if ps.closed then (panic, ps) else (
  do
    (i, sh) ← select_shard ps ih v6
    elim (Map.get Bytes-discrete ih sh.swarms) [
      | none ↦ ok []
      | some sw ↦ ok (swarm_peers range sw for_seeder num_want)
    ],
  ps,
)

-- leechers and seeders, as uint32
unfoldable pub count_peers : PeerStore → InfoHash → Bool → Result (ℕ × ℕ)
count_peers ps ih v6 = do
  (i, sh) ← select_shard ps ih v6
  elim (Map.get Bytes-discrete ih sh.swarms) [
    | none ↦ ok (0, 0)
    | some sw ↦ ok (length sw.leechers % 2 ^ 32, length sw.seeders % 2 ^ 32)
  ]

-- leechers, seeders and snatches
unfoldable pub scrape_swarm : InfoHash → Act PeerStore (ℕ × ℕ × ℕ)
scrape_swarm ih ps = if ps.closed then (panic, ps) else (
  do
    (leechers, seeders) ← count_peers ps ih false
    (l, s) ← count_peers ps ih true
    ok ((leechers + l) % 2 ^ 32, (seeders + s) % 2 ^ 32, 0),
  ps,
)

-- peerStore.Ping
unfoldable pub ping : Act PeerStore (Unit {0})
ping ps = (ok tt, ps)
