-- ===== src/Storage/Redis.antt =====
-- storage/redis/storage.go: the keys, the stored form of a peer, and the client of github.com/redis/go-redis,
-- which is a parameter.
pub mod Packing
pub mod Tables
pub mod Data
pub mod Read
pub mod Answers
pub mod Calls
pub mod Refines
pub mod Store
pub mod Write
pub mod Keys
pub mod Gc
pub mod Config
use mochi.Base.{
  ℕ, ◌+◌, ◌-◌, Bool, true, false, ◌&&◌, Option, none, some, List, [], ◌∷◌, ◌++◌, ltb, if◌then◌else◌,
  length, take, drop, replicate,
}
use text.Mathlib.Text.{◌==◌ as str_eq}
use mochi.Base.Bytes.{Bytes, put_uint16, uint_be, bytes_eq}
use mochi.Base.Int.{ℤ}
use mochi.Netip.{Addr, as_slice, addr_from_slice, unmap}
use mochi.Result.{
  Error, client_error, other_error, Result, ok, err, panic, ◌>>=◌, Act, codes, err_invalid_ip,
}
use mochi.Bittorrent.Peer.{Peer, addr, new_peer_id, peer_id_len}
use mochi.Bittorrent.Hash.{InfoHash}

abbrev pub prefix_key : Bytes
prefix_key = codes "CHI_"

abbrev pub ih_key : Bytes
ih_key = codes "CHI_I"

abbrev pub ih4_seeder_key : Bytes
ih4_seeder_key = codes "CHI_S4_"

abbrev pub ih6_seeder_key : Bytes
ih6_seeder_key = codes "CHI_S6_"

abbrev pub ih4_leecher_key : Bytes
ih4_leecher_key = codes "CHI_L4_"

abbrev pub ih6_leecher_key : Bytes
ih6_leecher_key = codes "CHI_L6_"

abbrev pub count_seeder_key : Bytes
count_seeder_key = codes "CHI_C_S"

abbrev pub count_leecher_key : Bytes
count_leecher_key = codes "CHI_C_L"

abbrev pub count_downloads_key : Bytes
count_downloads_key = codes "CHI_D"

-- InfoHashKey
abbrev pub key_prefix : Bool → Bool → Bytes
key_prefix true true = ih6_seeder_key
key_prefix false true = ih6_leecher_key
key_prefix true false = ih4_seeder_key
key_prefix false false = ih4_leecher_key

unfoldable pub info_hash_key : InfoHash → Bool → Bool → Bytes
info_hash_key info_hash seeder v6 = key_prefix seeder v6 ++ info_hash

-- `copy(b[:PeerIDLen], p.ID.Bytes())` into zeros
abbrev pub fixed_id : Bytes → Bytes
fixed_id id = take peer_id_len id ++ replicate (peer_id_len - length id) 0

-- PackPeer
unfoldable pub pack_peer : Peer → Bytes
pack_peer p = fixed_id p.id ++ (put_uint16 p.port ++ as_slice (addr p))

abbrev pub peer_minimum_len : ℕ
peer_minimum_len = peer_id_len + 2 + 4

abbrev pub err_invalid_peer_data_size : Error
err_invalid_peer_data_size =
    other_error "invalid peer data (must be at least 26 bytes (InfoHash + Port + IPv4))"

abbrev pub with_addr : Bytes → ℕ → Option Addr → Result Peer
with_addr id port (some a) = ok (record { id = id; ip = unmap a; port = port })
with_addr id port none = err err_invalid_ip

-- UnpackPeer
unfoldable pub unpack_peer : Bytes → Result Peer
unpack_peer b = if ltb (length b) peer_minimum_len then err err_invalid_peer_data_size else do
  id ← new_peer_id (take peer_id_len b)
  with_addr id (uint_be (take 2 (drop peer_id_len b))) (addr_from_slice (drop (peer_id_len + 2) b))

-- redis.Nil
abbrev pub err_nil : Error
err_nil = other_error "redis: nil"

unfoldable pub is_nil : Error → Bool
is_nil (client_error s) = false
is_nil (other_error s) = str_eq s "redis: nil"

-- NoResultErr, with the value that comes with redis.Nil
unfoldable pub no_result_err : {A : Type 0} → A → Result A → Result A
no_result_err a (ok b) = ok b
no_result_err a (err e) = if is_nil e then ok a else err e
no_result_err a panic = panic

-- the commands that are queued for a transaction
pub data Command : Type 0 where
  hset : Bytes → Bytes → ℤ → Command
  hdel : Bytes → Bytes → Command
  hincr_by : Bytes → Bytes → ℕ → Command
  incr : Bytes → Command
  decr : Bytes → Command
  sadd : Bytes → Bytes → Command

-- redis.UniversalClient, as the store calls it. `queued` is what a command says of its result while it waits
-- in a transaction, and `tx_pipelined` gives the errors of the commands.
pub record Client (S : Type 0) : Type 0 where
  pub queued : Command → Result ℕ
  pub tx_pipelined : List Command → Act S (List (Option Error))
  pub hdel_one : Bytes → Bytes → Act S ℕ
  pub decr_one : Bytes → Act S ℕ
  pub hrand_field : Bytes → ℕ → Act S (List Bytes)
  pub hlen : Bytes → Act S ℕ
  pub hget_int : Bytes → Bytes → Act S ℤ
