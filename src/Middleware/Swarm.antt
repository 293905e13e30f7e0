-- ===== src/Middleware/Swarm.antt =====
-- middleware/hooks.go over storage/memory/storage.go: the calls that an announce makes on the memory storage.
use mochi.Base.{
  ℕ, ◌≤◌, ◌≡◌, ◌∙◌, refl, ap, Bool, true, false, List, [], ◌∷◌, ◌++◌, arith, length, length-take,
  ◌==◌, if◌then◌else◌, if_false, All, All-append, Bool-cases, inl, inr, Option-cases,
}
use mochi.Base.Bytes.{Bytes-discrete}
use mochi.Base.Map
use mochi.Base.Int.{ℤ}
use mochi.Result.{Result, ok, err, panic, is_resource_missing, err_resource_does_not_exist}
use mochi.Bittorrent.Event.{Event, nothing, started, stopped, completed}
use mochi.Bittorrent.Peer.{Peer, Peer-discrete}
use mochi.Bittorrent.Hash.{InfoHash, truncate_v1, info_hash_v2_len}
use mochi.Bittorrent.Request.{AnnounceRequest, peers}
use mochi.Storage.Memory.{
  Shard, PeerStore, on_shard, shard_put_seeder, shard_delete_seeder, shard_put_leecher,
  shard_delete_leecher, shard_graduate_leecher, put_seeder, delete_seeder, put_leecher,
  delete_leecher, graduate_leecher,
}
use mochi.Storage.Memory.Select.{select_shard_total}
use mochi.Storage.Memory.Refines.{IsWell}
use mochi.Storage.Memory.Tracker.{
  Call, seed, leech, graduate, unseed, unleech, HasHash, step, run, step-Runs,
}
use mochi.Middleware.Storage.{memory, or_missing}
use mochi.Middleware.Response.{Context}
use mochi.Middleware.Interaction.{store_fn, interact_peer, interact_all, interact}

-- The calls for one peer and one hash.
unfoldable pub event_calls : ℤ → Event → ℕ → InfoHash → Peer → List Call
event_calls now stopped left ih p = unseed ih p ∷ unleech ih p ∷ []
event_calls now completed left ih p = graduate now ih p ∷ []
event_calls now _ left ih p = (if left == 0 then seed now ih p else leech now ih p) ∷ []

-- The calls for one peer: those for the hash, and those for the truncation of a hash of version 2.
unfoldable pub peer_calls : ℤ → Event → ℕ → InfoHash → Peer → List Call
peer_calls now event left ih p =
    if length ih == info_hash_v2_len
    then event_calls now event left ih p ++ event_calls now event left (truncate_v1 ih) p
    else event_calls now event left ih p

unfoldable pub all_calls : ℤ → Event → ℕ → InfoHash → List Peer → List Call
all_calls now event left ih [] = []
all_calls now event left ih (p ∷ ps) =
    peer_calls now event left ih p ++ all_calls now event left ih ps

run-append : (cs ds : List Call) (ps : PeerStore) → run (cs ++ ds) ps ≡ run ds (run cs ps)
unfolding run
run-append [] ds ps = refl
run-append (c ∷ cs) ds ps = run-append cs ds (step c ps)

-- A call succeeds, or finds nothing.
abbrev Passes : Result (Unit {0}) → Type 0
Passes (ok u) = Unit
Passes (err e) = is_resource_missing e ≡ true
Passes panic = true ≡ false

or_missing-Passes :
    (r : Result (Unit {0}) × PeerStore) → Passes r.0 → or_missing tt r ≡ (ok tt, r.1)
unfolding or_missing
or_missing-Passes (ok u, s) h = refl
or_missing-Passes (err e, s) h = rw h
or_missing-Passes (panic, s) h = absurd (cc)

missing-Passes : Passes (err err_resource_does_not_exist)
unfolding is_resource_missing
missing-Passes = refl

module _ (ih : InfoHash) (p : Peer) (sh : Shard) where
  shard_delete_seeder-Passes : Passes (shard_delete_seeder ih p sh).0
  shard_delete_seeder-Passes = elim (Option-cases (Map.get Bytes-discrete ih sh.swarms)) [
    | inl absent ↦ unfold shard_delete_seeder in rw (absent, Passes) missing-Passes
    | inr (sw, here) ↦
        unfold shard_delete_seeder in
        rw (here, Passes)
          (elim (Bool-cases (Map.contains Peer-discrete p sw.seeders)) [
            | inl there ↦ rw (there, Passes) tt
            | inr not_there ↦ rw (not_there, Passes) tt
          ])
  ]

  shard_delete_leecher-Passes : Passes (shard_delete_leecher ih p sh).0
  shard_delete_leecher-Passes = elim (Option-cases (Map.get Bytes-discrete ih sh.swarms)) [
    | inl absent ↦ unfold shard_delete_leecher in rw (absent, Passes) missing-Passes
    | inr (sw, here) ↦
        unfold shard_delete_leecher in
        rw (here, Passes)
          (elim (Bool-cases (Map.contains Peer-discrete p sw.leechers)) [
            | inl there ↦ rw (there, Passes) tt
            | inr not_there ↦ rw (not_there, Passes) tt
          ])
  ]

module _ (P : Result (Unit {0}) → Type 0) (ps : PeerStore) (w : IsWell ps)
    (o : ps.closed ≡ false) where
  on_shard-gives :
      (ih : InfoHash) (h : 4 ≤ length ih) (v6 : Bool) (f : Shard → Result (Unit {0}) × Shard)
      → ((sh : Shard) → P (f sh).0)
      → P (on_shard ps ih v6 f).0
  unfolding on_shard
  on_shard-gives ih h v6 f k =
      let (i, sh, e, g, s) = select_shard_total ps w.sized ih v6 h in rw (on_shard, s) (k sh)

  opened :
      (r r' : Result (Unit {0}) × PeerStore)
      → P r'.0
      → P (if◌then◌else◌ {A = Result (Unit {0}) × PeerStore} ps.closed r r').0
  opened r r' k = rw (if_false ps.closed r r' o) k

module _ (now : ℤ) (range : List Peer → List Peer) where
  module _ (ps : PeerStore) (w : IsWell ps) (o : ps.closed ≡ false) (ih : InfoHash)
      (h : 4 ≤ length ih) (p : Peer) where
    delete_seeder-Passes : Passes (delete_seeder ih p ps).0
    unfolding delete_seeder
    delete_seeder-Passes =
        opened Passes ps w o _ _
          (on_shard-gives Passes ps w o ih h _ _ (shard_delete_seeder-Passes ih p))

    delete_leecher-Passes : Passes (delete_leecher ih p ps).0
    unfolding delete_leecher
    delete_leecher-Passes =
        opened Passes ps w o _ _
          (on_shard-gives Passes ps w o ih h _ _ (shard_delete_leecher-Passes ih p))

    put_seeder-ok : (put_seeder now ih p ps).0 ≡ ok tt
    unfolding put_seeder shard_put_seeder
    put_seeder-ok =
        opened (λ r. r ≡ ok tt) ps w o _ _
          (on_shard-gives (λ r. r ≡ ok tt) ps w o ih h _ _ (λ sh. refl))

    put_leecher-ok : (put_leecher now ih p ps).0 ≡ ok tt
    unfolding put_leecher shard_put_leecher
    put_leecher-ok =
        opened (λ r. r ≡ ok tt) ps w o _ _
          (on_shard-gives (λ r. r ≡ ok tt) ps w o ih h _ _ (λ sh. refl))

    graduate_leecher-ok : (graduate_leecher now ih p ps).0 ≡ ok tt
    unfolding graduate_leecher shard_graduate_leecher
    graduate_leecher-ok =
        opened (λ r. r ≡ ok tt) ps w o _ _
          (on_shard-gives (λ r. r ≡ ok tt) ps w o ih h _ _ (λ sh. refl))

  paired : (r : Result (Unit {0}) × PeerStore) → r.0 ≡ ok tt → r ≡ (ok tt, r.1)
  paired (r, s) e = ap (λ q. (q, s)) e

  store_fn-run :
      (event : Event) (left : ℕ) (ih : InfoHash) (p : Peer) (ps : PeerStore)
      → IsWell ps
      → ps.closed ≡ false
      → 4 ≤ length ih
      → store_fn (memory now range) event left ih p ps
        ≡ (ok tt, run (event_calls now event left ih p) ps)
  unfolding store_fn event_calls memory run step
  store_fn-run stopped left ih p ps w o h =
      let r = step-Runs (unseed ih p) ps h w o in
      rw (or_missing-Passes (delete_seeder ih p ps) (delete_seeder-Passes ps w o ih h p)) (
        or_missing-Passes (delete_leecher ih p (delete_seeder ih p ps).1)
          (delete_leecher-Passes (delete_seeder ih p ps).1 r.well (r.still_open ∙ o) ih h p))
  store_fn-run completed left ih p ps w o h = paired _ (graduate_leecher-ok ps w o ih h p)
  store_fn-run nothing left ih p ps w o h = elim (Bool-cases (left == 0)) [
    | inl seeds ↦ rw seeds (paired _ (put_seeder-ok ps w o ih h p))
    | inr leeches ↦ rw leeches (paired _ (put_leecher-ok ps w o ih h p))
  ]
  store_fn-run started left ih p ps w o h = elim (Bool-cases (left == 0)) [
    | inl seeds ↦ rw seeds (paired _ (put_seeder-ok ps w o ih h p))
    | inr leeches ↦ rw leeches (paired _ (put_leecher-ok ps w o ih h p))
  ]

  pub run-open :
      (cs : List Call) (ps : PeerStore)
      → All HasHash cs
      → IsWell ps
      → ps.closed ≡ false
      → IsWell (run cs ps) × ((run cs ps).closed ≡ false)
  unfolding run
  run-open [] ps l w o = (w, o)
  run-open (c ∷ cs) ps l w o =
      let s = step-Runs c ps l.0 w o in run-open cs (step c ps) l.1 s.well (s.still_open ∙ o)

  event_calls-HasHash :
      (event : Event) (left : ℕ) (ih : InfoHash) (p : Peer)
      → 4 ≤ length ih
      → All HasHash (event_calls now event left ih p)
  unfolding event_calls
  event_calls-HasHash stopped left ih p h = (h, (h, tt))
  event_calls-HasHash completed left ih p h = (h, tt)
  event_calls-HasHash nothing left ih p h = elim (Bool-cases (left == 0)) [
    | inl seeds ↦ rw seeds (h, tt)
    | inr leeches ↦ rw leeches (h, tt)
  ]
  event_calls-HasHash started left ih p h = elim (Bool-cases (left == 0)) [
    | inl seeds ↦ rw seeds (h, tt)
    | inr leeches ↦ rw leeches (h, tt)
  ]

  module _ (event : Event) (left : ℕ) (ih : InfoHash) (h : 4 ≤ length ih) where
    truncate_v1-long : 4 ≤ length (truncate_v1 ih)
    unfolding truncate_v1
    truncate_v1-long = ground (arith, length-take 20 ih)

    peer_calls-HasHash : (p : Peer) → All HasHash (peer_calls now event left ih p)
    unfolding peer_calls
    peer_calls-HasHash p = elim (Bool-cases (length ih == info_hash_v2_len)) [
      | inl v2 ↦ rw v2 (
          All-append HasHash (event_calls now event left ih p) _
            (event_calls-HasHash event left ih p h)
            (event_calls-HasHash event left (truncate_v1 ih) p truncate_v1-long))
      | inr v1 ↦ rw v1 (event_calls-HasHash event left ih p h)
    ]

    interact_peer-run :
        (p : Peer) (ps : PeerStore)
        → IsWell ps
        → ps.closed ≡ false
        → interact_peer (memory now range) event left ih p ps
          ≡ (ok tt, run (peer_calls now event left ih p) ps)
    unfolding interact_peer peer_calls
    interact_peer-run p ps w o =
        let first = event_calls now event left ih p in
        let (well, still) = run-open first ps (event_calls-HasHash event left ih p h) w o in
        elim (Bool-cases (length ih == info_hash_v2_len)) [
          | inl v2 ↦
              rw
                (
                  v2,
                  store_fn-run event left ih p ps w o h,
                  run-append first (event_calls now event left (truncate_v1 ih) p) ps,
                )
                (store_fn-run event left (truncate_v1 ih) p (run first ps) well still
                  truncate_v1-long)
          | inr v1 ↦ rw v1 (store_fn-run event left ih p ps w o h)
        ]

    pub all_calls-HasHash : (peers : List Peer) → All HasHash (all_calls now event left ih peers)
    unfolding all_calls
    all_calls-HasHash [] = tt
    all_calls-HasHash (p ∷ peers) =
        All-append HasHash (peer_calls now event left ih p) _ (peer_calls-HasHash p)
          (all_calls-HasHash peers)

    interact_all-run :
        (peers : List Peer) (ps : PeerStore)
        → IsWell ps
        → ps.closed ≡ false
        → interact_all (memory now range) event left ih peers ps
          ≡ (ok tt, run (all_calls now event left ih peers) ps)
    unfolding interact_all all_calls
    interact_all-run [] ps w o = unfold run in refl
    interact_all-run (p ∷ peers) ps w o =
        let (well, still) =
          run-open (peer_calls now event left ih p) ps (peer_calls-HasHash p) w o in
        rw
          (
            interact_peer-run p ps w o,
            run-append (peer_calls now event left ih p) (all_calls now event left ih peers) ps,
          )
          (interact_all-run peers (run (peer_calls now event left ih p) ps) well still)

  -- The hook that runs after an announce, on an open, well-formed memory storage and a hash of four bytes
  -- or more, succeeds, and leaves the storage that the calls for the event leave: for every address of
  -- the peer, a removal from both kinds when it stopped, a graduation when it completed, and otherwise
  -- an entry as a seeder if nothing is left and as a leecher if something is; and the same for the
  -- truncation of a hash of version 2. With its key in the context the hook does nothing.
  pub interact-run :
      (ctx : Context) (req : AnnounceRequest) (ps : PeerStore)
      → 4 ≤ length req.info_hash
      → IsWell ps
      → ps.closed ≡ false
      → interact (memory now range) ctx req ps ≡ (
        ok ctx,
        if ctx.skip_swarm_interaction
            then ps
            else run (all_calls now req.event req.left req.info_hash (peers req.peer)) ps,
      )
  unfolding interact
  interact-run ctx req ps h w o = elim (Bool-cases ctx.skip_swarm_interaction) [
    | inl skips ↦ rw skips refl
    | inr runs ↦
        rw (runs, interact_all-run req.event req.left req.info_hash h (peers req.peer) ps w o) refl
  ]
