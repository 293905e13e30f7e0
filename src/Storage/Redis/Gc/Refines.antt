-- ===== src/Storage/Redis/Gc/Refines.antt =====
-- storage/redis/storage.go: a run of the garbage collector against the specification.
use mochi.Base.{
  ◌≡◌, refl, ap, subst, sym, ◌∙◌, Bool, true, false, ◌&&◌, Option, none, some, List, [], ◌∷◌, ite,
  if◌then◌else◌, Bool-cases, Option-cases, inl, inr,
}
use mochi.Base.Bytes.{Bytes, Bytes-discrete, has_prefix}
use mochi.Base.Int.{ℤ}
use mochi.Base.Map.{is_some}
use mochi.Netip.{is6}
use mochi.Result.{ok}
use mochi.Bittorrent.Peer.{Peer, addr}
use mochi.Bittorrent.Hash.{InfoHash}
use mochi.Storage.Memory.View.{Role}
use mochi.Storage.Memory.Purge.{expire}
use mochi.Storage.Memory.Tracker.{spec, collect}
use mochi.Storage.Redis.{no_result_err, info_hash_key}
use mochi.Storage.Redis.Store.{Fields, role_key, view_of, is_seeder}
use mochi.Storage.Redis.Gc.{
  GcClient, counter_of, logged, peers_to_remove, gc_peers, gc_key, gc_keys, gc_listed, gc,
}
use mochi.Storage.Redis.Gc.Collects.{has, without, is_swarm, IsCollectable, IsListed}
use mochi.Storage.Redis.Gc.Rows.{peers_to_remove-expire, expire_twice}
use mochi.Storage.Redis.Gc.Cleans.{remove_peers-Loses, remove_empty-Unlists, Loses-Same}

-- what is left when the stale fields of a key are deleted
abbrev expired : ℤ → Bool → Option ℤ → Option ℤ
expired cutoff b o = if b then expire cutoff o else o

key_prefix-is_swarm :
    (seeder v6 : Bool) (ih : InfoHash) → is_swarm (info_hash_key ih seeder v6) ≡ true
unfolding info_hash_key counter_of has_prefix
key_prefix-is_swarm true true ih = refl
key_prefix-is_swarm true false ih = refl
key_prefix-is_swarm false true ih = refl
key_prefix-is_swarm false false ih = refl

module _ {S : Type 0} (Good : S → Type 0) (field : S → Fields) (listed : S → Bytes → Bool)
    (parse : Bytes → Option ℤ) (c : GcClient S) (redis : IsCollectable Good field listed parse c)
    (cutoff : ℤ) where
  expired-none : (b : Bool) → expired cutoff b none ≡ none
  expired-none true = refl
  expired-none false = refl

  -- a step that expires the peers of the keys that a test selects
  Collects : (Bytes → Bool) → S → S → Type 0
  Collects selected s s' =
      Good s'
      × ((j g : Bytes) → field s' j g ≡ expired cutoff (selected j) (field s j g))
      × (IsListed Good field listed s → IsListed Good field listed s')

  -- the deletion of the stale fields of one key, as it is seen in its hash
  expires :
      (k j g : Bytes) (fs : List Bytes) (t : Fields)
      → (if has g fs then none else t k g) ≡ expire cutoff (t k g)
      → without k fs t j g ≡ expired cutoff (ite (Bytes-discrete j k) true false) (t j g)
  expires k j g fs t h = go (Bytes-discrete j k)
    where
      go :
          (d : Dec (j ≡ k))
          → ite d (if has g fs then none else t j g) (t j g)
            ≡ expired cutoff (ite d true false) (t j g)
      go (yes e) = subst (λ x. (if has g fs then none else t x g) ≡ expire cutoff (t x g)) (sym e) h
      go (no n) = refl

  gc_key-Collects :
      (k count : Bytes) (s : S)
      → Good s
      → is_swarm k ≡ true
      → (s' : S) × (gc_key parse c cutoff k (some count) s ≡ (ok tt, s'))
        × Collects (λ j. ite (Bytes-discrete j k) true false) s s'
  unfolding gc_key gc_peers logged no_result_err Collects
  gc_key-Collects k count s g h =
      let (es, s1, e1, (g1, l1, v1), distinct, reads) = redis.hget_all_reads k s g h in
      let fs = peers_to_remove parse c cutoff es in
      let (s2, e2, (g2, l2, v2)) =
        remove_peers-Loses Good field listed parse c redis count k fs s1 g1 h in
      let (s3, e3, (g3, v3, keeps)) =
        remove_empty-Unlists Good field listed parse c redis k s2 g2 h in
      let (g2', l, v) =
        Loses-Same Good field listed parse c redis k fs s s1 s2 (g1, l1, v1) (g2, l2, v2) in
      let row : (f : Bytes)
          → (if has f fs then none else field s k f) ≡ expire cutoff (field s k f) =
        λ f. rw (reads f) (peers_to_remove-expire parse c cutoff f es distinct) in
      let gone : (j f : Bytes)
          → field s2 j f ≡ expired cutoff (ite (Bytes-discrete j k) true false) (field s j f) =
        λ j f. v j f ∙ expires k j f fs (field s) (row f) in
      (
        s3,
        rw (e1, e2, redis.watch_runs k _ s2, e3) refl,
        (
          g3,
          (λ j f. v3 j f ∙ gone j f),
          λ all. keeps λ j w n f.
              gone j f ∙ ap (expired cutoff _) (all j w (sym (l j) ∙ n) f) ∙ expired-none _,
        ),
      )

  -- the keys of a list, less those that are not of swarms
  among : List Bytes → Bytes → Bool
  among ks j = has j ks && is_swarm j

  -- the key before a list of keys
  among_cons :
      (k : Bytes) (ks : List Bytes) (j : Bytes) (o o' : Option ℤ)
      → is_swarm k ≡ true
      → o' ≡ expired cutoff (ite (Bytes-discrete j k) true false) o
      → expired cutoff (has j ks && is_swarm j) o' ≡ expired cutoff (has j (k ∷ ks) && is_swarm j) o
  among_cons k ks j o o' w h = go (Bytes-discrete j k) h
    where
      go :
          (d : Dec (j ≡ k))
          → o' ≡ expired cutoff (ite d true false) o
          → expired cutoff (has j ks && is_swarm j) o'
            ≡ expired cutoff (ite d true (has j ks) && is_swarm j) o
      go (yes e) q =
          let w' : is_swarm j ≡ true = ap is_swarm e ∙ w in
          elim (Bool-cases (has j ks)) [
            | inl m ↦ rw (m, w') (ap (expire cutoff) q ∙ expire_twice cutoff o)
            | inr m ↦ rw (m, w') q
          ]
      go (no n) q = ap (expired cutoff (has j ks && is_swarm j)) q

  -- a key that is not of a swarm before a list of keys
  among_other :
      (k : Bytes) (ks : List Bytes) (j : Bytes) (o : Option ℤ)
      → is_swarm k ≡ false
      → expired cutoff (has j ks && is_swarm j) o ≡ expired cutoff (has j (k ∷ ks) && is_swarm j) o
  among_other k ks j o w = go (Bytes-discrete j k)
    where
      go :
          (d : Dec (j ≡ k))
          → expired cutoff (has j ks && is_swarm j) o
            ≡ expired cutoff (ite d true (has j ks) && is_swarm j) o
      go (yes e) =
          let w' : is_swarm j ≡ false = ap is_swarm e ∙ w in
          elim (Bool-cases (has j ks)) [ inl m ↦ rw (m, w') refl | inr m ↦ rw (m, w') refl ]
      go (no n) = refl

  skipped : (k : Bytes) (s : S) → gc_key parse c cutoff k none s ≡ (ok tt, s)
  unfolding gc_key
  skipped k s = refl

  gc_keys-Collects :
      (ks : List Bytes) (s : S)
      → Good s
      → (s' : S) × (gc_keys parse c cutoff ks s ≡ (ok tt, s')) × Collects (among ks) s s'
  unfolding gc_keys Collects among
  gc_keys-Collects [] s g = (s, refl, (g, (λ j f. refl), λ all. all))
  gc_keys-Collects (k ∷ ks) s g = elim (Option-cases (counter_of k)) [
    | inl e ↦
        let (s', e', (g', v, keeps)) = gc_keys-Collects ks s g in
        (
          s',
          rw (e, skipped k s, e') refl,
          (g', (λ j f. v j f ∙ among_other k ks j _ (ap is_some e)), keeps),
        )
    | inr (count, e) ↦
        let (s1, e1, (g1, v1, keeps1)) = gc_key-Collects k count s g (ap is_some e) in
        let (s2, e2, (g2, v2, keeps2)) = gc_keys-Collects ks s1 g1 in
        (
          s2,
          rw (e, e1, e2) refl,
          (
            g2,
            (λ j f. v2 j f ∙ among_cons k ks j _ _ (ap is_some e) (v1 j f)),
            λ all. keeps2 (keeps1 all),
          ),
        )
  ]

  gone_or_listed :
      (ks : List Bytes) (k f : Bytes) (s : S)
      → is_swarm k ≡ true
      → (listed s k ≡ true → has k ks ≡ true)
      → (listed s k ≡ false → field s k f ≡ none)
      → expired cutoff (has k ks && is_swarm k) (field s k f) ≡ expire cutoff (field s k f)
  gone_or_listed ks k f s w there gone = elim (Bool-cases (listed s k)) [
    | inl e ↦ rw (there e, w) refl
    | inr e ↦ rw (gone e) (expired-none _)
  ]

  -- Over a client that does what Redis documents, where every swarm with a peer is listed, a run of the garbage
  -- collector succeeds, removes exactly the peers that have not announced since the cutoff, as the
  -- specification that the memory storage refines, and leaves every swarm with a peer listed.
  pub gc-refines_collect :
      (s : S)
      → Good s
      → IsListed Good field listed s
      → (s' : S) × (gc parse c cutoff s ≡ (ok tt, s'))
        × Good s'
        × IsListed Good field listed s'
        × ((r : Role) (ih : InfoHash) (p : Peer)
            → view_of (field s') r ih p ≡ spec (collect cutoff) (view_of (field s)) r ih p)
  unfolding gc gc_listed no_result_err Collects among spec
  gc-refines_collect s g all =
      let (ks, s1, e1, (g1, l1, v1), lists) = redis.smembers_lists s g in
      let (s2, e2, (g2, v2, keeps)) = gc_keys-Collects ks s1 g1 in
      (
        s2,
        rw (e1, e2) refl,
        g2,
        keeps (λ j w n f. v1 j f ∙ all j w (sym (l1 j) ∙ n) f),
        λ r ih p.
            let k = role_key r ih p in
            let w = key_prefix-is_swarm (is_seeder r) (is6 (addr p)) ih in
            v2 k _
            ∙ ap (expired cutoff (has k ks && is_swarm k)) (v1 k _)
            ∙ gone_or_listed ks k _ s w (lists k) (λ n. all k w n _),
      )
