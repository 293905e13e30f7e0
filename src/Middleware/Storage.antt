-- ===== src/Middleware/Storage.antt =====
-- storage/storage.go: the interface PeerStorage, as the hooks of middleware/hooks.go call it, and the memory
-- storage of storage/memory/storage.go behind it. Contexts are not passed on to a storage.
pub use mochi.Result.{and_then}
use mochi.Base.{ℕ, Bool, List, if◌then◌else◌}
use mochi.Base.Int.{ℤ}
use mochi.Result.{Result, ok, err, panic, Act, is_resource_missing}
use mochi.Bittorrent.Peer.{Peer}
use mochi.Bittorrent.Hash.{InfoHash}
use mochi.Storage.Memory.{PeerStore}
use mochi.Storage.Memory
use mochi.Storage.Memory.Read

pub record PeerStorage (S : Type 0) : Type 0 where
  pub put_seeder : InfoHash → Peer → Act S (Unit {0})
  pub delete_seeder : InfoHash → Peer → Act S (Unit {0})
  pub put_leecher : InfoHash → Peer → Act S (Unit {0})
  pub delete_leecher : InfoHash → Peer → Act S (Unit {0})
  pub graduate_leecher : InfoHash → Peer → Act S (Unit {0})
  pub announce_peers : InfoHash → Bool → ℕ → Bool → Act S (List Peer)
  pub scrape_swarm : InfoHash → Act S (ℕ × ℕ × ℕ)

-- The memory storage at a time, with the order in which Go visits a map.
unfoldable pub memory : ℤ → (List Peer → List Peer) → PeerStorage PeerStore
memory now range = record {
  put_seeder = Memory.put_seeder now;
  delete_seeder = Memory.delete_seeder;
  put_leecher = Memory.put_leecher now;
  delete_leecher = Memory.delete_leecher;
  graduate_leecher = Memory.graduate_leecher now;
  announce_peers = Read.announce_peers range;
  scrape_swarm = Read.scrape_swarm;
}

-- `err != nil && !errors.Is(err, storage.ErrResourceDoesNotExist)`: a missing resource counts as `a`
-- (an error comes without peers).
unfoldable pub or_missing : {S A : Type 0} → A → Result A × S → Result A × S
or_missing a (ok b, s) = (ok b, s)
or_missing a (err e, s) = if is_resource_missing e then (ok a, s) else (err e, s)
or_missing a (panic, s) = (panic, s)
