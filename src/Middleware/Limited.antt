-- ===== src/Middleware/Limited.antt =====
-- The memory storage behind the interface of the hooks.
use mochi.Base.{
  ℕ, ◌<◌, ◌≤◌, Bool, true, false, List, [], Option, none, some, arith, length, length-take,
  if◌then◌else◌,
}
use mochi.Base.Bytes.{Bytes-discrete}
use mochi.Base.Map
use mochi.Base.Int.{ℤ}
use mochi.Result.{Gives, Result, ok, err, panic, ◌>>=◌}
use mochi.Bittorrent.Peer.{Peer}
use mochi.Bittorrent.Hash.{InfoHash}
use mochi.Storage.Memory.{Shard, Swarm, PeerStore, select_shard}
use mochi.Storage.Memory.Read.{announce_peers, swarm_peers}
use mochi.Storage.Memory.Announce.{offered, swarm_peers-take}
use mochi.Middleware.Storage.{memory}
use mochi.Middleware.Answer.{IsLimited}

module _ (range : List Peer → List Peer) (fs : Bool) (n : ℕ) (h : 0 < n) where
  in_swarm :
      (sw : Option Swarm)
      → Gives
          (λ ps. length ps ≤ n)
          (elim sw [ none ↦ ok [] | some sw ↦ ok (swarm_peers range sw fs n) ])
  in_swarm none = omega arith
  in_swarm (some sw) =
      rw (swarm_peers-take range sw fs n h) (omega (arith, length-take n (offered range sw fs)))

  in_shard :
      (ih : InfoHash) (r : Result (ℕ × Shard))
      → Gives
          (λ ps. length ps ≤ n)
          (r >>= λ (i, sh). elim (Map.get Bytes-discrete ih sh.swarms) [
            | none ↦ ok []
            | some sw ↦ ok (swarm_peers range sw fs n)
          ])
  in_shard ih (ok (i, sh)) = in_swarm (Map.get Bytes-discrete ih sh.swarms)
  in_shard ih (err e) = tt
  in_shard ih panic = tt

  if_open :
      (b : Bool) (r : Result (List Peer)) (ps : PeerStore)
      → Gives (λ ps. length ps ≤ n) r
      → (let t : Result (List Peer) × PeerStore = if b then (panic, ps) else (r, ps) in
          Gives (λ ps. length ps ≤ n) t.0)
  if_open true r ps k = tt
  if_open false r ps k = k

-- The memory storage answers with as many peers as are wanted at most.
pub memory-IsLimited : (now : ℤ) (range : List Peer → List Peer) → IsLimited (memory now range)
unfolding memory announce_peers
memory-IsLimited now range = record {
  limited = λ ih fs n v6 ps h.
      if_open range fs n h ps.closed _ ps (in_shard range fs n h ih (select_shard ps ih v6));
}
