-- ===== src/Frontend/Udp/Tracker.antt =====
-- frontend/udp over middleware and storage/memory: the whole UDP tracker.
use mochi.Base.{◌<◌, ◌^◌, Bool, List, [], ◌∷◌, All}
use mochi.Base.Bytes.{Bytes}
use mochi.Base.Map.{Map}
use mochi.Base.Int.{ℤ, pos}
use mochi.Netip.{Addr}
use mochi.Bittorrent.Peer.{Peer}
use mochi.Storage.Memory.{PeerStore, new_peer_storage, validate}
use mochi.Storage.Memory.Gc.{gc}
use mochi.Storage.Memory.Tracker.{collect, run, step}
use mochi.Storage.Memory.Fresh.{new_peer_storage-IsWell}
use mochi.Middleware.Storage.{memory}
use mochi.Middleware.Logic.{Hook, new_logic}
use mochi.Middleware.Safety.{IsOpen, IsSafeHook, new_logic-IsSafeLogic}
use mochi.Middleware.Swarm.{run-open}
use mochi.Frontend.Options.{ParseOptions}
use mochi.Frontend.Udp.ConnectionId.{ConnectionIdGenerator}
use mochi.Frontend.Udp.Handle.{Server}
use mochi.Frontend.Udp.Reach.{System, running, Reach, IsServing, Reach-IsServing}

-- A server with the memory storage. `visit` is the order in which Go visits the peers of a swarm.
unfoldable pub memory_server :
    (List Peer → List Peer)
    → ℤ
    → ℤ
    → List (Hook PeerStore)
    → List (Hook PeerStore)
    → ParseOptions
    → ConnectionIdGenerator
    → (Bytes → Bytes)
    → (Bytes → Bytes)
    → (Map Addr Bool → Map Addr Bool)
    → Server PeerStore
memory_server visit interval min_interval pre post options generator mac lower range = record {
  logic = λ now. new_logic interval min_interval (memory (pos now) visit) pre post;
  options = options;
  generator = generator;
  mac = mac;
  lower = lower;
  range = range;
}

pub gc-IsOpen : (cutoff : ℤ) (ps : PeerStore) → IsOpen ps → IsOpen (gc cutoff ps)
unfolding run step
gc-IsOpen cutoff ps h = run-open (pos 0) (λ ks. ks) (collect cutoff ∷ []) ps (tt, tt) h.0 h.1

module _ (visit : List Peer → List Peer) (interval min_interval : ℤ)
    (pre post : List (Hook PeerStore)) (pre_safe : All (IsSafeHook IsOpen) pre)
    (post_safe : All (IsSafeHook IsOpen) post) (options : ParseOptions)
    (generator : ConnectionIdGenerator) (mac lower : Bytes → Bytes)
    (range : Map Addr Bool → Map Addr Bool) where
  -- A UDP tracker that starts with a new memory storage, of shards that fit in 31 bits, never panics, by
  -- whatever packets, tasks and collections in whatever order, and its storage stays open and well
  -- formed, if the configured hooks are safe.
  pub memory_server-IsServing :
      (n : ℤ) (v : System PeerStore)
      → validate n < 2 ^ 31
      → Reach gc
          (memory_server visit interval min_interval pre post options generator mac lower range)
          (running (new_peer_storage n) [])
          v
      → IsServing IsOpen v
  unfolding memory_server
  memory_server-IsServing n v h r =
      let fresh = new_peer_storage-IsWell n h in
      Reach-IsServing IsOpen gc
        (memory_server visit interval min_interval pre post options generator mac lower range)
        (λ now.
          new_logic-IsSafeLogic (pos now) visit interval min_interval pre post pre_safe post_safe)
        gc-IsOpen (fresh.0, fresh.1) r
