-- ===== src/Storage/Memory/Collect.antt =====
-- storage/memory/storage.go: what `gc` leaves of a shard.
use mathlib.Core.List.{foldl}
use mochi.Base.{
  ℕ, ◌≡◌, ◌∙◌, refl, sym, Bool, true, false, ◌&&◌, List, [], ◌∷◌, Option, none, some, arith, ite,
  map, if◌then◌else◌, length, Bool-cases, Option-cases, inl, inr, ◌==◌,
}
use mochi.Base.Bytes.{Bytes-discrete}
use mochi.Base.Int.{ℤ}
use mochi.Base.Map
use mochi.Base.Map.{Map, get-delete, delete-IsMap, total-delete, Values-get, Values-delete}
use mochi.Bittorrent.Peer.{Peer, Peer-discrete}
use mochi.Bittorrent.Hash.{InfoHash}
use mochi.Storage.Memory.{Peers, Swarm, Shard, put_swarm}
use mochi.Storage.Memory.Gc.{purge, gc_swarm, gc_shard}
use mochi.Storage.Memory.Purge.{expire, Purged, purge-Purged}
use mochi.Storage.Memory.Counters.{IsCounted, AreMaps, put_swarm-IsCounted, get_or_create-found}
use mochi.Storage.Memory.View.{Role, seeder, leecher, of_role, shard_view, view-put_swarm}

get_empty : (m : Peers) (q : Peer) → length m ≡ 0 → Map.get Peer-discrete q m ≡ none
unfolding Map.get
get_empty [] q e = refl
get_empty (x ∷ m) q e = absurd (omega arith)

removed_elsewhere :
    (cutoff : ℤ) (sh : Shard) (ih : InfoHash) (ns nl : ℕ) (r : Role) (jh : InfoHash) (q : Peer)
    (o : Option ℤ)
    → o ≡ none
    → Map.IsMap Bytes-discrete sh.swarms
    → shard_view
        (record {
          swarms = Map.delete Bytes-discrete ih sh.swarms;
          num_seeders = ns;
          num_leechers = nl;
        })
        r
        jh
        q
      ≡ ite (Bytes-discrete jh ih) o (shard_view sh r jh q)
unfolding shard_view
removed_elsewhere cutoff sh ih ns nl r jh q o e m =
    ground (arith, get-delete Bytes-discrete jh ih sh.swarms m)

module _ (cutoff : ℤ) (sh : Shard) (h : IsCounted sh) (ih : InfoHash) (sw : Swarm)
    (here : Map.get Bytes-discrete ih sh.swarms ≡ some sw) where
  abbrev ls : Peers × ℕ
  ls = purge cutoff (sw.leechers, sh.num_leechers)

  abbrev ss : Peers × ℕ
  ss = purge cutoff (sw.seeders, sh.num_seeders)

  maps : AreMaps sw
  maps = Values-get Bytes-discrete AreMaps ih sw sh.swarms h.peers here

  pl : Purged cutoff sw.leechers sh.num_leechers ls
  pl = purge-Purged cutoff sw.leechers sh.num_leechers maps.1

  ps : Purged cutoff sw.seeders sh.num_seeders ss
  ps = purge-Purged cutoff sw.seeders sh.num_seeders maps.0

  abbrev left : Shard
  left =
      put_swarm ih (record { seeders = ss.0; leechers = ls.0 })
        (record sh { num_seeders = ss.1; num_leechers = ls.1 })

  left-IsCounted : IsCounted left
  left-IsCounted =
      put_swarm-IsCounted ih (record { seeders = ss.0; leechers = ls.0 }) sh ss.1 ls.1 h
        (ps.distinct, pl.distinct) (rw (get_or_create-found ih sh sw here) ps.balance)
        (rw (get_or_create-found ih sh sw here) pl.balance) (ps.word (omega (arith, h.seeders)))
        (pl.word (omega (arith, h.leechers)))

  abbrev removed : Shard
  removed = record sh {
    num_seeders = ss.1;
    num_leechers = ls.1;
    swarms = Map.delete Bytes-discrete ih sh.swarms;
  }

  removed-IsCounted : length ls.0 ≡ 0 → length ss.0 ≡ 0 → IsCounted removed
  removed-IsCounted el es = record {
    hashes = delete-IsMap Bytes-discrete ih sh.swarms h.hashes;
    peers = Values-delete Bytes-discrete AreMaps ih sh.swarms h.peers;
    seeders = ground (
      arith,
      total-delete Bytes-discrete (λ (x : Swarm). length x.seeders) ih sh.swarms,
      ps.balance,
      h.seeders,
      ps.word,
    );
    leechers = ground (
      arith,
      total-delete Bytes-discrete (λ (x : Swarm). length x.leechers) ih sh.swarms,
      pl.balance,
      h.leechers,
      pl.word,
    );
  }

  view_here : (r : Role) (q : Peer) → shard_view sh r ih q ≡ Map.get Peer-discrete q (of_role r sw)
  unfolding shard_view
  view_here r q = rw here

  view_left :
      (r : Role) (jh : InfoHash) (q : Peer)
      → shard_view left r jh q
        ≡ ite (Bytes-discrete jh ih) (expire cutoff (shard_view sh r ih q)) (shard_view sh r jh q)
  view_left seeder jh q =
      view-put_swarm seeder ih jh _ sh ss.1 ls.1 q ∙ (rw (view_here seeder q, ps.entries q))
  view_left leecher jh q =
      view-put_swarm leecher ih jh _ sh ss.1 ls.1 q ∙ (rw (view_here leecher q, pl.entries q))

  expired_empty :
      (m : Peers) (n : ℕ) (q : Peer) (s : Peers × ℕ)
      → Purged cutoff m n s
      → length s.0 ≡ 0
      → expire cutoff (Map.get Peer-discrete q m) ≡ none
  expired_empty m n q s d e = sym (d.entries q) ∙ get_empty s.0 q e

  view_removed :
      (r : Role) (jh : InfoHash) (q : Peer)
      → length ls.0 ≡ 0
      → length ss.0 ≡ 0
      → shard_view removed r jh q
        ≡ ite (Bytes-discrete jh ih) (expire cutoff (shard_view sh r ih q)) (shard_view sh r jh q)
  view_removed seeder jh q el es = rw view_here (
      removed_elsewhere cutoff sh ih ss.1 ls.1 seeder jh q _ (expired_empty _ _ q ss ps es)
        h.hashes)
  view_removed leecher jh q el es = rw view_here (
      removed_elsewhere cutoff sh ih ss.1 ls.1 leecher jh q _ (expired_empty _ _ q ls pl el)
        h.hashes)

-- One round of `gc` over a shard: it expires the entries of one hash.
record Collected (cutoff : ℤ) (ih : InfoHash) (sh sh' : Shard) : Type 0 where
  counted : IsCounted sh'
  view :
      (r : Role) (jh : InfoHash) (q : Peer)
      → shard_view sh' r jh q
        ≡ ite (Bytes-discrete jh ih) (expire cutoff (shard_view sh r ih q)) (shard_view sh r jh q)

view_absent :
    (cutoff : ℤ) (sh : Shard) (ih : InfoHash)
    → Map.get Bytes-discrete ih sh.swarms ≡ none
    → (r : Role) (jh : InfoHash) (q : Peer)
    → shard_view sh r jh q
      ≡ ite (Bytes-discrete jh ih) (expire cutoff (shard_view sh r ih q)) (shard_view sh r jh q)
unfolding shard_view
view_absent cutoff sh ih e r jh q = ground arith

gc_swarm-Collected :
    (cutoff : ℤ) (sh : Shard) (ih : InfoHash)
    → IsCounted sh
    → Collected cutoff ih sh (gc_swarm cutoff sh ih)
unfolding gc_swarm
gc_swarm-Collected cutoff sh ih h = elim (Option-cases (Map.get Bytes-discrete ih sh.swarms)) [
  | inl absent ↦
      rw (absent, gc_swarm) (record { counted = h; view = view_absent cutoff sh ih absent })
  | inr (sw, here) ↦
      rw (here, gc_swarm)
        (elim (Bool-cases (
          length (ls cutoff sh h ih sw here).0 == 0 && length (ss cutoff sh h ih sw here).0 == 0)) [
            | inl gone ↦ rw gone (record {
              counted = removed-IsCounted cutoff sh h ih sw here (ground arith) (ground arith);
              view = λ r jh q.
                  view_removed cutoff sh h ih sw here r jh q (ground arith) (ground arith);
            })
            | inr stays ↦ rw stays (record {
              counted = left-IsCounted cutoff sh h ih sw here;
              view = view_left cutoff sh h ih sw here;
            })
          ])
]

listed : InfoHash → List InfoHash → Bool
listed jh [] = false
listed jh (ih ∷ ihs) = ite (Bytes-discrete jh ih) true (listed jh ihs)

listed-keys :
    (jh : InfoHash) (m : Map InfoHash Swarm)
    → listed jh (map (λ e. e.0) m) ≡ Map.contains Bytes-discrete jh m
unfolding listed Map.get
listed-keys jh [] = refl
listed-keys jh ((ih, sw) ∷ m) = ground (arith, listed-keys jh m)

expire-expire : (cutoff : ℤ) (o : Option ℤ) → expire cutoff (expire cutoff o) ≡ expire cutoff o
expire-expire cutoff o = ground arith

record Swept (cutoff : ℤ) (ihs : List InfoHash) (sh sh' : Shard) : Type 0 where
  counted : IsCounted sh'
  view :
      (r : Role) (jh : InfoHash) (q : Peer)
      → shard_view sh' r jh q
        ≡ (if listed jh ihs then expire cutoff (shard_view sh r jh q) else shard_view sh r jh q)

foldl-Swept :
    (cutoff : ℤ) (sh : Shard) (ihs : List InfoHash)
    → IsCounted sh
    → Swept cutoff ihs sh (foldl (gc_swarm cutoff) sh ihs)
unfolding listed
foldl-Swept cutoff sh [] h = record { counted = h; view = λ r jh q. refl }
foldl-Swept cutoff sh (ih ∷ ihs) h =
    let c = gc_swarm-Collected cutoff sh ih h in
    let s = foldl-Swept cutoff (gc_swarm cutoff sh ih) ihs c.counted in
    record {
      counted = s.counted;
      view = λ r jh q.
          ground (arith, s.view r jh q, c.view r jh q, expire-expire cutoff (shard_view sh r jh q));
    }

view_uncontained :
    (sh : Shard) (r : Role) (jh : InfoHash) (q : Peer)
    → Map.contains Bytes-discrete jh sh.swarms ≡ false
    → shard_view sh r jh q ≡ none
unfolding shard_view
view_uncontained sh r jh q e = ground arith

pub gc_shard-IsCounted : (cutoff : ℤ) (sh : Shard) → IsCounted sh → IsCounted (gc_shard cutoff sh)
unfolding gc_shard
gc_shard-IsCounted cutoff sh h = (foldl-Swept cutoff sh (map (λ e. e.0) sh.swarms) h).counted

pub view-gc_shard :
    (cutoff : ℤ) (sh : Shard)
    → IsCounted sh
    → (r : Role) (jh : InfoHash) (q : Peer)
    → shard_view (gc_shard cutoff sh) r jh q ≡ expire cutoff (shard_view sh r jh q)
unfolding gc_shard
view-gc_shard cutoff sh h r jh q = ground (
  arith,
  (foldl-Swept cutoff sh (map (λ e. e.0) sh.swarms) h).view r jh q,
  listed-keys jh sh.swarms,
  view_uncontained sh r jh q,
)
