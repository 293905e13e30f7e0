-- ===== src/Storage/Memory/Select.antt =====
-- storage/memory/storage.go: how a hash and an address family select a shard.
use native.Mathlib.Nat.{mod-lt}
use mochi.Base.{
  ℕ, ◌+◌, ◌*◌, ◌/◌, ◌%◌, ◌^◌, ◌<◌, ◌≤◌, ◌≡◌, refl, Bool, true, false, List, [], ◌∷◌, some, arith,
  if◌then◌else◌, length, get_elem?, take,
}
use mochi.Base.Bytes.{uint_be}
use mochi.Result.{ok, ◌>>=◌}
use mochi.Bittorrent.Hash.{InfoHash}
use mochi.Storage.Memory.{Shard, PeerStore, shard_index, select_shard}

-- A store as `new_peer_storage` makes it: twice a number of shards that is not 0 and fits in 31 bits.
pub record IsSized (ps : PeerStore) : Type 0 where
  pub half : ℕ
  pub size : length ps.shards ≡ half * 2
  pub positive : 0 < half
  pub bounded : half < 2 ^ 31

get_elem?_lt {ℓ} :
    {A : Type ℓ} (xs : List A) (i : ℕ) → i < length xs → (a : A) × (get_elem? xs i ≡ some a)
get_elem?_lt [] i h = elim h [ ]
get_elem?_lt (x ∷ xs) ℕ.zero h = (x, refl)
get_elem?_lt (x ∷ xs) (ℕ.suc i) h = get_elem?_lt xs i (omega arith)

module _ (ps : PeerStore) (s : IsSized ps) (ih : InfoHash) (v6 : Bool) (h : 4 ≤ length ih) where
  abbrev slot : ℕ
  slot = if v6 then uint_be (take 4 ih) % s.half + s.half else uint_be (take 4 ih) % s.half

  half_lem : length ps.shards % 2 ^ 32 / 2 ≡ s.half
  half_lem = omega (arith, s.size, s.bounded)

  half_lem' : length ps.shards / 2 % 2 ^ 32 ≡ s.half
  half_lem' = omega (arith, s.size, s.bounded)

  shard_index-slot : shard_index ps ih v6 ≡ ok slot
  unfolding shard_index
  shard_index-slot =
      rw (half_lem, half_lem')
        (ground (arith, s.positive, s.bounded, mod-lt (uint_be (take 4 ih)) s.positive))

  slot_lt : slot < length ps.shards
  slot_lt = ground (arith, s.size, mod-lt (uint_be (take 4 ih)) s.positive)

-- A hash of four bytes or more selects a shard of the store, in the first half of the shards for IPv4
-- and in the second half for IPv6.
pub shard_index_halves :
    (ps : PeerStore) (s : IsSized ps) (ih : InfoHash)
    → 4 ≤ length ih
    → (i j : ℕ) × (shard_index ps ih false ≡ ok i)
      × (shard_index ps ih true ≡ ok j)
      × (i < s.half)
      × (j ≡ i + s.half)
      × (j < length ps.shards)
shard_index_halves ps s ih h = (
  slot ps s ih false h,
  slot ps s ih true h,
  shard_index-slot ps s ih false h,
  shard_index-slot ps s ih true h,
  mod-lt (uint_be (take 4 ih)) s.positive,
  refl,
  slot_lt ps s ih true h,
)

pub select_shard_total :
    (ps : PeerStore) (s : IsSized ps) (ih : InfoHash) (v6 : Bool)
    → 4 ≤ length ih
    → (i : ℕ) × (sh : Shard) × (shard_index ps ih v6 ≡ ok i)
      × (get_elem? ps.shards i ≡ some sh)
      × (select_shard ps ih v6 ≡ ok (i, sh))
unfolding select_shard
select_shard_total ps s ih v6 h =
    let (sh, e) = get_elem?_lt ps.shards (slot ps s ih v6 h) (slot_lt ps s ih v6 h) in
    let k = shard_index-slot ps s ih v6 h in (slot ps s ih v6 h, sh, k, e, rw (k, ◌>>=◌) (rw e))
