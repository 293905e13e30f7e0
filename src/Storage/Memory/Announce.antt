-- ===== src/Storage/Memory/Announce.antt =====
-- storage/memory/storage.go: what AnnouncePeers and ScrapeSwarm answer.
use mochi.Base.{
  ℕ, zero, suc, ◌-◌, ◌<◌, ◌≡◌, ◌∙◌, refl, ap, sym, Bool, true, false, Option, none, some, List, [],
  ◌∷◌, ◌++◌, arith, length, take, ltb, if◌then◌else◌, Bool-cases, inl, inr, take_of_length-le,
  lt→ltb, if_false,
}
use mathlib.Core.List.{append-nil, append_assoc}
use mochi.Base.Bytes.{Bytes-discrete}
use mochi.Base.Map
use mochi.Result.{Result, ok, ◌>>=◌}
use mochi.Bittorrent.Peer.{Peer}
use mochi.Bittorrent.Hash.{InfoHash}
use mochi.Storage.Memory.{Swarm, PeerStore, Shard, select_shard}
use mochi.Storage.Memory.Read.{keys, range_keys, swarm_peers, announce_peers}

range_keys-nil : (acc : List Peer) (n : ℕ) → range_keys [] acc n ≡ ((acc, n), true)
unfolding range_keys
range_keys-nil acc n = refl

range_keys-more :
    (k : Peer) (ks acc : List Peer) (n : ℕ)
    → range_keys (k ∷ ks) acc (suc (suc n)) ≡ range_keys ks (acc ++ k ∷ []) (suc n)
unfolding range_keys
range_keys-more k ks acc n =
    let e : suc (suc n) - 1 ≡ suc n = omega arith in rw (e, lt→ltb 0 (suc n) (omega arith))

range_keys-last :
    (k : Peer) (ks acc : List Peer) → range_keys (k ∷ ks) acc 1 ≡ ((acc ++ k ∷ [], 0), false)
unfolding range_keys
range_keys-last k ks acc = refl

outcome :
    {l l' : List Peer} {n n' : ℕ} {b b' : Bool}
    → l ≡ l'
    → n ≡ n'
    → b ≡ b'
    → ◌≡◌ {A = (List Peer × ℕ) × Bool} ((l, n), b) ((l', n'), b')
outcome p q r = cc

range_keys_lem :
    (ks acc : List Peer) (n : ℕ)
    → 0 < n
    → range_keys ks acc n ≡ ((acc ++ take n ks, n - length ks), ltb (length ks) n)
range_keys_lem ks acc zero h = absurd (omega arith)
range_keys_lem [] acc (suc n) h =
    range_keys-nil acc (suc n) ∙ outcome (sym (append-nil acc)) (omega arith) (ground arith)
range_keys_lem (k ∷ ks) acc (suc zero) h =
    range_keys-last k ks acc ∙ outcome refl (omega arith) (ground arith)
range_keys_lem (k ∷ ks) acc (suc (suc n)) h =
    range_keys-more k ks acc n
    ∙ (range_keys_lem ks (acc ++ k ∷ []) (suc n) (omega arith)
        ∙ outcome (append_assoc acc (k ∷ []) (take (suc n) ks)) (omega arith) (ground arith))

take-append :
    (n : ℕ) (xs ys : List Peer)
    → take n (xs ++ ys) ≡ (if ltb (length xs) n then xs ++ take (n - length xs) ys else take n xs)
take-append zero xs ys = ground arith
take-append (suc n) [] ys = ground arith
take-append (suc n) (x ∷ xs) ys = ground (arith, take-append n xs ys)

-- the peers that the swarm offers, in the order in which Go visits its maps
abbrev pub offered : (List Peer → List Peer) → Swarm → Bool → List Peer
offered range sw for_seeder =
    if for_seeder
    then range (keys sw.leechers)
    else range (keys sw.seeders) ++ range (keys sw.leechers)

pub swarm_peers-take :
    (range : List Peer → List Peer) (sw : Swarm) (for_seeder : Bool) (n : ℕ)
    → 0 < n
    → swarm_peers range sw for_seeder n ≡ take n (offered range sw for_seeder)
unfolding swarm_peers
swarm_peers-take range sw true n h = rw (range_keys_lem (range (keys sw.leechers)) [] n h)
swarm_peers-take range sw false n h =
    rw (range_keys_lem (range (keys sw.seeders)) [] n h)
      (elim (Bool-cases (ltb (length (range (keys sw.seeders))) n)) [
        | inl more ↦
            rw
              (
                more,
                range_keys_lem (range (keys sw.leechers)) (take n (range (keys sw.seeders)))
                    (n - length (range (keys sw.seeders))) (ground arith),
              )
              (ground (
                arith,
                take-append n (range (keys sw.seeders)) (range (keys sw.leechers)),
                take_of_length-le n (range (keys sw.seeders)),
              ))
        | inr full ↦
            rw full
              (ground (arith, take-append n (range (keys sw.seeders)) (range (keys sw.leechers))))
      ])

-- For a positive number of peers wanted, the answer on an open store holds the first so many of the
-- peers that the swarm of the hash and family offers: its leechers for a seeder, and otherwise its
-- seeders and then its leechers; it is empty for an unknown hash. The store does not change.
pub announce_peers-take :
    (range : List Peer → List Peer) (ih : InfoHash) (fs : Bool) (n : ℕ) (v6 : Bool) (ps : PeerStore)
    {i : ℕ} {sh : Shard}
    → 0 < n
    → ps.closed ≡ false
    → select_shard ps ih v6 ≡ ok (i, sh)
    → announce_peers range ih fs n v6 ps ≡ (
      ok (elim (Map.get Bytes-discrete ih sh.swarms) [
        | none ↦ []
        | some sw ↦ take n (offered range sw fs)
      ]),
      ps,
    )
unfolding announce_peers
announce_peers-take range ih fs n v6 ps {i} {sh} h o s =
    if_false ps.closed _ _ o
    ∙ ap (λ r. (r, ps)) (rw (s, ◌>>=◌) (found (Map.get Bytes-discrete ih sh.swarms)))
  where
    found :
        (sw : Option Swarm)
        → ◌≡◌ {A = Result (List Peer)}
            (elim sw [ none ↦ ok [] | some sw ↦ ok (swarm_peers range sw fs n) ])
            (ok (elim sw [ none ↦ [] | some sw ↦ take n (offered range sw fs) ]))
    found none = refl
    found (some sw) = ap ok (swarm_peers-take range sw fs n h)
