-- ===== src/Storage/Redis/Keys.antt =====
-- storage/redis/storage.go: the keys of swarms name the hash, the role and the family of their peers.
use mochi.Base.{
  ℕ, ◌≡◌, refl, ap, sym, ◌∙◌, Bool, true, false, ◌||◌, Option, none, some, [], ◌∷◌, ◌==◌,
  if◌then◌else◌, drop,
}
use mochi.Base.Bytes.{has_prefix, Bytes}
use mochi.Bittorrent.Hash.{InfoHash}
use mochi.Storage.Redis.{
  info_hash_key, ih4_seeder_key, ih6_seeder_key, ih4_leecher_key, ih6_leecher_key, count_seeder_key,
  count_leecher_key,
}

-- the counter that the garbage collector takes a key to belong to
unfoldable pub count_key_of : Bytes → Option Bytes
count_key_of key =
    if has_prefix key ih4_seeder_key || has_prefix key ih6_seeder_key
    then some count_seeder_key
    else if has_prefix key ih4_leecher_key || has_prefix key ih6_leecher_key
    then some count_leecher_key
    else none

-- the letter at a place of a key
abbrev letter : ℕ → Bytes → ℕ
letter n bs = first (drop n bs)
  where
    first : Bytes → ℕ
    first [] = 0
    first (b ∷ bs) = b

abbrev parts : Bytes → InfoHash × Bool × Bool
parts key = (drop 7 key, letter 4 key == b'S', letter 5 key == b'6')

parts-info_hash_key :
    (ih : InfoHash) (seeder v6 : Bool) → parts (info_hash_key ih seeder v6) ≡ (ih, seeder, v6)
unfolding info_hash_key
parts-info_hash_key ih true true = refl
parts-info_hash_key ih true false = refl
parts-info_hash_key ih false true = refl
parts-info_hash_key ih false false = refl

-- Two swarms have one key only if they are one: the same hash, role and family of addresses.
pub info_hash_key-injective :
    (ih jh : InfoHash) (seeder v6 seeder' v6' : Bool)
    → info_hash_key ih seeder v6 ≡ info_hash_key jh seeder' v6'
    → (ih ≡ jh) × (seeder ≡ seeder') × (v6 ≡ v6')
info_hash_key-injective ih jh seeder v6 seeder' v6' e =
    let q : ◌≡◌ {A = InfoHash × Bool × Bool} (ih, seeder, v6) (jh, seeder', v6') =
      sym (parts-info_hash_key ih seeder v6) ∙ ap parts e ∙ parts-info_hash_key jh seeder' v6' in
    (ap (λ x. x.0) q, ap (λ x. x.1) q, ap (λ x. x.2) q)

-- The garbage collector counts every swarm in the counter of its role.
pub count_key_of-info_hash_key :
    (ih : InfoHash) (seeder v6 : Bool)
    → count_key_of (info_hash_key ih seeder v6)
      ≡ some (if seeder then count_seeder_key else count_leecher_key)
unfolding count_key_of info_hash_key has_prefix
count_key_of-info_hash_key ih true true = refl
count_key_of-info_hash_key ih true false = refl
count_key_of-info_hash_key ih false true = refl
count_key_of-info_hash_key ih false false = refl
