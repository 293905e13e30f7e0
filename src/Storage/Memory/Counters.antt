-- ===== src/Storage/Memory/Counters.antt =====
-- storage/memory/storage.go: the counters of a shard agree with its swarms, whatever is done.
use mochi.Base.{
  ℕ, ◌+◌, ◌%◌, ◌^◌, ◌≡◌, true, some, arith, length, refl, inl, inr, Option-cases, Bool-cases,
}
use mochi.Base.Bytes.{Bytes-discrete}
use mochi.Base.Int.{ℤ}
use mochi.Base.Map
use mochi.Base.Map.{
  Map, insert-IsMap, delete-IsMap, length-insert, length-delete, total-insert, Values-insert,
  Values-get,
}
use mochi.Bittorrent.Peer.{Peer, Peer-discrete}
use mochi.Bittorrent.Hash.{InfoHash}
use mochi.Storage.Memory.{
  Swarm, Shard, get_or_create, empty_swarm, shard_put_seeder, shard_delete_seeder,
  shard_put_leecher, shard_delete_leecher, shard_graduate_leecher, put_swarm, decrement,
}

abbrev pub AreMaps : Swarm → Type 0
AreMaps sw = Map.IsMap Peer-discrete sw.seeders × Map.IsMap Peer-discrete sw.leechers

abbrev pub seeder_total : Map InfoHash Swarm → ℕ
seeder_total = Map.total Bytes-discrete (λ sw. length sw.seeders)

abbrev pub leecher_total : Map InfoHash Swarm → ℕ
leecher_total = Map.total Bytes-discrete (λ sw. length sw.leechers)

-- The maps have each key once, and the counters are the numbers of peers, as uint64.
pub record IsCounted (sh : Shard) : Type 0 where
  pub hashes : Map.IsMap Bytes-discrete sh.swarms
  pub peers : Map.Values Bytes-discrete AreMaps sh.swarms
  pub seeders : sh.num_seeders ≡ seeder_total sh.swarms % 2 ^ 64
  pub leechers : sh.num_leechers ≡ leecher_total sh.swarms % 2 ^ 64

pub get_or_create-AreMaps :
    (ih : InfoHash) (sh : Shard) → IsCounted sh → AreMaps (get_or_create ih sh)
unfolding get_or_create
get_or_create-AreMaps ih sh h =
    ground (arith, Values-get Bytes-discrete AreMaps ih (get_or_create ih sh) sh.swarms h.peers)

total_get_or_create :
    (ih : InfoHash) (sh : Shard) (f : Swarm → ℕ)
    → f empty_swarm ≡ 0
    → Map.measure Bytes-discrete f (Map.get Bytes-discrete ih sh.swarms) ≡ f (get_or_create ih sh)
unfolding get_or_create
total_get_or_create ih sh f h = ground arith

-- A swarm written back moves the counters by what it gained.
pub put_swarm-IsCounted :
    (ih : InfoHash) (sw : Swarm) (sh : Shard) (ns nl : ℕ)
    → IsCounted sh
    → AreMaps sw
    → (ns + length (get_or_create ih sh).seeders) % 2 ^ 64
      ≡ (sh.num_seeders + length sw.seeders) % 2 ^ 64
    → (nl + length (get_or_create ih sh).leechers) % 2 ^ 64
      ≡ (sh.num_leechers + length sw.leechers) % 2 ^ 64
    → ns % 2 ^ 64 ≡ ns
    → nl % 2 ^ 64 ≡ nl
    → IsCounted (put_swarm ih sw (record sh { num_seeders = ns; num_leechers = nl }))
put_swarm-IsCounted ih sw sh ns nl h m es el ws wl = record {
  hashes = insert-IsMap Bytes-discrete ih sw sh.swarms h.hashes;
  peers = Values-insert Bytes-discrete AreMaps ih sw sh.swarms h.peers m;
  seeders = omega (
    arith,
    total-insert Bytes-discrete (λ (x : Swarm). length x.seeders) ih sw sh.swarms,
    total_get_or_create ih sh (λ (x : Swarm). length x.seeders) refl,
    h.seeders,
  );
  leechers = omega (
    arith,
    total-insert Bytes-discrete (λ (x : Swarm). length x.leechers) ih sw sh.swarms,
    total_get_or_create ih sh (λ (x : Swarm). length x.leechers) refl,
    h.leechers,
  );
}

pub get_or_create-found :
    (ih : InfoHash) (sh : Shard) (sw : Swarm)
    → Map.get Bytes-discrete ih sh.swarms ≡ some sw
    → get_or_create ih sh ≡ sw
unfolding get_or_create
get_or_create-found ih sh sw here = ground arith

module _ (ih : InfoHash) (p : Peer) (sh : Shard) (h : IsCounted sh) where
  pub shard_put_seeder-IsCounted : (now : ℤ) → IsCounted (shard_put_seeder now ih p sh).1
  unfolding shard_put_seeder
  shard_put_seeder-IsCounted now =
      put_swarm-IsCounted ih
        (record (get_or_create ih sh) {
          seeders = Map.insert Peer-discrete p now (get_or_create ih sh).seeders;
        })
        sh _ sh.num_leechers h (insert-IsMap Peer-discrete p now _ m.0, m.1)
        (ground (arith, length-insert Peer-discrete p now (get_or_create ih sh).seeders)) refl
        (ground (arith, h.seeders)) (omega (arith, h.leechers))
    where
      m : AreMaps (get_or_create ih sh)
      m = get_or_create-AreMaps ih sh h

  pub shard_put_leecher-IsCounted : (now : ℤ) → IsCounted (shard_put_leecher now ih p sh).1
  unfolding shard_put_leecher
  shard_put_leecher-IsCounted now =
      put_swarm-IsCounted ih
        (record (get_or_create ih sh) {
          leechers = Map.insert Peer-discrete p now (get_or_create ih sh).leechers;
        })
        sh sh.num_seeders _ h (m.0, insert-IsMap Peer-discrete p now _ m.1) refl
        (ground (arith, length-insert Peer-discrete p now (get_or_create ih sh).leechers))
        (omega (arith, h.seeders)) (ground (arith, h.leechers))
    where
      m : AreMaps (get_or_create ih sh)
      m = get_or_create-AreMaps ih sh h

  pub shard_graduate_leecher-IsCounted :
      (now : ℤ) → IsCounted (shard_graduate_leecher now ih p sh).1
  unfolding shard_graduate_leecher
  shard_graduate_leecher-IsCounted now =
      put_swarm-IsCounted ih
        (record {
          seeders = Map.insert Peer-discrete p now (get_or_create ih sh).seeders;
          leechers = Map.delete Peer-discrete p (get_or_create ih sh).leechers;
        })
        sh _ _ h (insert-IsMap Peer-discrete p now _ m.0, delete-IsMap Peer-discrete p _ m.1)
        (ground (arith, length-insert Peer-discrete p now (get_or_create ih sh).seeders))
        (ground (arith, length-delete Peer-discrete p (get_or_create ih sh).leechers))
        (ground (arith, h.seeders)) (ground (arith, h.leechers))
    where
      m : AreMaps (get_or_create ih sh)
      m = get_or_create-AreMaps ih sh h

  -- a swarm that lost one peer of a kind, with the counter of that kind one less
  seeder_lost :
      (sw : Swarm)
      → Map.get Bytes-discrete ih sh.swarms ≡ some sw
      → Map.contains Peer-discrete p sw.seeders ≡ true
      → IsCounted (
          put_swarm ih
            (record sw { seeders = Map.delete Peer-discrete p sw.seeders })
            (record sh { num_seeders = decrement sh.num_seeders }))
  seeder_lost sw here there =
      put_swarm-IsCounted ih (record sw { seeders = Map.delete Peer-discrete p sw.seeders }) sh _
        sh.num_leechers h (delete-IsMap Peer-discrete p _ m.0, m.1)
        (ground (arith, found, length-delete Peer-discrete p sw.seeders)) (ground (arith, found))
        (omega (arith, h.seeders)) (omega (arith, h.leechers))
    where
      found : get_or_create ih sh ≡ sw
      found = get_or_create-found ih sh sw here

      m : AreMaps sw
      m = Values-get Bytes-discrete AreMaps ih sw sh.swarms h.peers here

  leecher_lost :
      (sw : Swarm)
      → Map.get Bytes-discrete ih sh.swarms ≡ some sw
      → Map.contains Peer-discrete p sw.leechers ≡ true
      → IsCounted (
          put_swarm ih
            (record sw { leechers = Map.delete Peer-discrete p sw.leechers })
            (record sh { num_leechers = decrement sh.num_leechers }))
  leecher_lost sw here there =
      put_swarm-IsCounted ih (record sw { leechers = Map.delete Peer-discrete p sw.leechers }) sh
        sh.num_seeders _ h (m.0, delete-IsMap Peer-discrete p _ m.1) (ground (arith, found))
        (ground (arith, found, length-delete Peer-discrete p sw.leechers))
        (omega (arith, h.seeders)) (omega (arith, h.leechers))
    where
      found : get_or_create ih sh ≡ sw
      found = get_or_create-found ih sh sw here

      m : AreMaps sw
      m = Values-get Bytes-discrete AreMaps ih sw sh.swarms h.peers here

  pub shard_delete_seeder-IsCounted : IsCounted (shard_delete_seeder ih p sh).1
  shard_delete_seeder-IsCounted = elim (Option-cases (Map.get Bytes-discrete ih sh.swarms)) [
    | inl absent ↦ unfold shard_delete_seeder in rw (absent, shard_delete_seeder) h
    | inr (sw, here) ↦
        unfold shard_delete_seeder in
        rw (here, shard_delete_seeder)
          (elim (Bool-cases (Map.contains Peer-discrete p sw.seeders)) [
            | inl there ↦ rw there (seeder_lost sw here there)
            | inr not_there ↦ rw not_there h
          ])
  ]

  pub shard_delete_leecher-IsCounted : IsCounted (shard_delete_leecher ih p sh).1
  shard_delete_leecher-IsCounted = elim (Option-cases (Map.get Bytes-discrete ih sh.swarms)) [
    | inl absent ↦ unfold shard_delete_leecher in rw (absent, shard_delete_leecher) h
    | inr (sw, here) ↦
        unfold shard_delete_leecher in
        rw (here, shard_delete_leecher)
          (elim (Bool-cases (Map.contains Peer-discrete p sw.leechers)) [
            | inl there ↦ rw there (leecher_lost sw here there)
            | inr not_there ↦ rw not_there h
          ])
  ]
