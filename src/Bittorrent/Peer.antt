-- ===== src/Bittorrent/Peer.antt =====
-- bittorrent/peer.go: peer identifiers and peers.
use mochi.Base.{ℕ, ◌==◌, if◌then◌else◌, length, ℕ_discrete}
use mochi.Base.Bytes.{Bytes}
use mochi.Netip.{Addr, unmap}
use mochi.Result.{Error, other_error, Result, ok, err}

abbrev pub PeerId : Type 0
PeerId = Bytes

abbrev pub peer_id_len : ℕ
peer_id_len = 20

abbrev pub err_invalid_peer_id_size : Error
err_invalid_peer_id_size = other_error "peer ID must be 20 bytes"

unfoldable pub new_peer_id : Bytes → Result PeerId
new_peer_id b = if length b == peer_id_len then ok b else err err_invalid_peer_id_size

-- netip.AddrPort is a pair of an address and a port.
pub record Peer : Type 0 where
  pub id : PeerId
  pub ip : Addr
  pub port : ℕ

unfoldable pub Peer-discrete : Discrete Peer
unfolding ℕ_discrete
Peer-discrete = hlevel ℕ_discrete

-- Peer.Addr: the unmapped address
unfoldable pub addr : Peer → Addr
unfolding unmap
addr p = unmap p.ip
