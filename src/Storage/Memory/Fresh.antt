-- ===== src/Storage/Memory/Fresh.antt =====
-- storage/memory/storage.go: the new store, and the closed one.
use mochi.Base.{
  ℕ, zero, suc, ◌*◌, ◌^◌, ◌<◌, ◌≡◌, ◌∙◌, refl, ap, false, none, arith, length, All, get_elem?,
  replicate,
}
use mochi.Base.Map
use mochi.Base.Int.{ℤ, pos, negsuc}
use mochi.Netip.{is6}
use mochi.Result.{Result, ok, err, panic}
use mochi.Bittorrent.Peer.{Peer, addr}
use mochi.Bittorrent.Hash.{InfoHash}
use mochi.Storage.Memory.{validate, new_peer_storage, empty_shard, shard_index}
use mochi.Storage.Memory.Counters.{IsCounted}
use mochi.Storage.Memory.View.{Role, shard_view}
use mochi.Storage.Memory.Refines.{IsWell, store_view, view_by, shard_of, found_at}

length-replicate {ℓ} : {A : Type ℓ} (n : ℕ) (a : A) → length (replicate n a) ≡ n
length-replicate zero a = refl
length-replicate (suc n) a = ap suc (length-replicate n a)

All-replicate {ℓ κ} : {A : Type ℓ} (P : A → Type κ) (n : ℕ) (a : A) → P a → All P (replicate n a)
All-replicate P zero a h = tt
All-replicate P (suc n) a h = (h, All-replicate P n a h)

validate_pos : (n : ℤ) → 0 < validate n
unfolding validate
validate_pos (pos n) = ground arith
validate_pos (negsuc n) = omega arith

empty_shard-IsCounted : IsCounted empty_shard
unfolding Map.total
empty_shard-IsCounted = record { hashes = tt; peers = tt; seeders = refl; leechers = refl }

empty_view :
    (n i : ℕ) (r : Role) (ih : InfoHash) (p : Peer)
    → shard_of (get_elem? (replicate n empty_shard) i) r ih p ≡ none
unfolding shard_view Map.get
empty_view zero i r ih p = refl
empty_view (suc n) zero r ih p = refl
empty_view (suc n) (suc i) r ih p = empty_view n i r ih p

empty_found :
    (n : ℕ) (i : Result ℕ) (r : Role) (ih : InfoHash) (p : Peer)
    → found_at (replicate n empty_shard) i r ih p ≡ none
empty_found n (ok i) r ih p = empty_view n i r ih p
empty_found n (err e) r ih p = refl
empty_found n panic r ih p = refl

-- A new store whose number of shards fits in 31 bits is open and well formed, and knows no peer.
pub new_peer_storage-IsWell :
    (n : ℤ)
    → validate n < 2 ^ 31
    → IsWell (new_peer_storage n)
      × ((new_peer_storage n).closed ≡ false)
      × ((r : Role) (ih : InfoHash) (p : Peer) → store_view (new_peer_storage n) r ih p ≡ none)
unfolding new_peer_storage
new_peer_storage-IsWell n h = (
  record {
    sized = record {
      half = validate n;
      size = length-replicate (validate n * 2) empty_shard;
      positive = validate_pos n;
      bounded = h;
    };
    counted = All-replicate IsCounted (validate n * 2) empty_shard empty_shard-IsCounted;
  },
  refl,
  λ r ih p.
      view_by (new_peer_storage n) r ih p _ refl
      ∙ empty_found (validate n * 2) (shard_index (new_peer_storage n) ih (is6 (addr p))) r ih p,
)
