-- ===== src/Bittorrent.antt =====
-- The package bittorrent: bittorrent/*.go.
pub mod Event
pub mod Peer
pub mod Hash
pub mod Request
pub mod Sanitize
