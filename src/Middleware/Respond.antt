-- ===== src/Middleware/Respond.antt =====
-- middleware/logic.go over storage/memory/storage.go: every announce is answered.
use mochi.Base.{
  ℕ, ◌+◌, ◌%◌, ◌^◌, ◌-◌, ◌≤◌, ◌≡◌, ◌∙◌, refl, ap, subst, Bool, true, false, List, [], ◌∷◌, ◌++◌,
  arith, length, length-take, ◌==◌, if_false, All, Bool-cases, inl, inr, none, some, Option,
}
use mochi.Base.Bytes.{Bytes-discrete}
use mochi.Base.Map
use mochi.Base.Int.{ℤ}
use mochi.Netip.{is6}
use mochi.Result.{Gives, Result, ok, ◌>>=◌}
use mochi.Bittorrent.Peer.{Peer}
use mochi.Bittorrent.Hash.{InfoHash, truncate_v1, info_hash_v2_len}
use mochi.Bittorrent.Request.{
  AnnounceRequest, AnnounceResponse, ScrapeRequest, ScrapeResponse, get_first,
}
use mochi.Storage.Memory.{Swarm, PeerStore}
use mochi.Storage.Memory.Read.{announce_peers, swarm_peers, count_peers, scrape_swarm}
use mochi.Storage.Memory.Select.{select_shard_total}
use mochi.Storage.Memory.Refines.{IsWell}
use mochi.Middleware.Storage.{PeerStorage, memory, or_missing}
use mochi.Middleware.Response.{
  Context, fetch_args, fetch, preset, trim, finish, append_peers, scrape, respond_announce,
  scrape_all, respond_scrape,
}
use mochi.Middleware.Answer.{IsAnswer, Answers, append_peers-Gives}
use mochi.Middleware.Limited.{memory-IsLimited}
use mochi.Middleware.Logic.{new_logic, handle_announce, announce_hooks}

-- The reads of a storage in a state succeed and leave the state.
pub record IsReadable {S : Type 0} (store : PeerStorage S) (s : S) : Type 0 where
  pub announced :
      (ih : InfoHash) (fs : Bool) (n : ℕ) (v6 : Bool)
      → 4 ≤ length ih
      → (ps : List Peer) × (store.announce_peers ih fs n v6 s ≡ (ok ps, s))
  pub scraped :
      (ih : InfoHash) → 4 ≤ length ih → (c : ℕ × ℕ × ℕ) × (store.scrape_swarm ih s ≡ (ok c, s))

truncate_v1-long : (ih : InfoHash) → 4 ≤ length ih → 4 ≤ length (truncate_v1 ih)
unfolding truncate_v1
truncate_v1-long ih h = ground (arith, length-take 20 ih)

module _ {S : Type 0} (store : PeerStorage S) (s : S) (r : IsReadable store s) where
  fetch_total :
      (seeding : Bool) (args : List (InfoHash × Bool)) (found : List Peer) (left : ℕ)
      → All (λ a. 4 ≤ length a.0) args
      → (all : List Peer) × (fetch store seeding args found left s ≡ (ok all, s))
  unfolding fetch or_missing
  fetch_total seeding [] found left h = (found, refl)
  fetch_total seeding ((ih, v6) ∷ args) found left h = elim (Bool-cases (left == 0)) [
    | inl enough ↦ (found, rw enough refl)
    | inr more ↦
        let (ps, e) = r.announced ih seeding left v6 h.0 in
        let (all, f) = fetch_total seeding args (found ++ ps) (left - length ps) h.1 in
        (all, rw (more, e) f)
  ]

  fetch_args-long :
      (ih : InfoHash) (v6 : Bool) → 4 ≤ length ih → All (λ a. 4 ≤ length a.0) (fetch_args ih v6)
  unfolding fetch_args
  fetch_args-long ih v6 h = elim (Bool-cases (length ih == info_hash_v2_len)) [
    | inl v2 ↦ rw v2 (h, (h, (truncate_v1-long ih h, (truncate_v1-long ih h, tt))))
    | inr v1 ↦ rw v1 (h, (h, tt))
  ]

  scrape_total : (ih : InfoHash) → 4 ≤ length ih → (c : ℕ × ℕ × ℕ) × (scrape store ih s ≡ (ok c, s))
  unfolding scrape
  scrape_total ih h =
      let (c, e) = r.scraped ih h in
      let (d, f) = r.scraped (truncate_v1 ih) (truncate_v1-long ih h) in
      elim (Bool-cases (length ih == info_hash_v2_len)) [
        | inl v2 ↦
            (((c.0 + d.0) % 2 ^ 32, (c.1 + d.1) % 2 ^ 32, (c.2 + d.2) % 2 ^ 32), rw (e, v2, f) refl)
        | inr v1 ↦ (c, rw (e, v1) refl)
      ]

  append_peers_total :
      (req : AnnounceRequest) (resp : AnnounceResponse)
      → 4 ≤ length req.info_hash
      → (resp' : AnnounceResponse) × (append_peers store req resp s ≡ (ok resp', s))
  unfolding append_peers
  append_peers_total req resp h =
      let v6_first = is6 (get_first req.peer.addresses) in
      let t = trim req.num_want (preset v6_first resp) in
      let (all, e) =
        fetch_total (req.left == 0) (fetch_args req.info_hash v6_first) t.0 t.1
          (fetch_args-long req.info_hash v6_first h) in
      (finish req resp all, rw e refl)

  pub respond_announce_total :
      (ctx : Context) (req : AnnounceRequest) (resp : AnnounceResponse)
      → 4 ≤ length req.info_hash
      → (r : Context × AnnounceResponse) × (respond_announce store ctx req resp s ≡ (ok r, s))
  unfolding respond_announce
  respond_announce_total ctx req resp h = elim (Bool-cases ctx.skip_response) [
    | inl skips ↦ ((ctx, resp), rw skips refl)
    | inr answers ↦
        let (c, e) = scrape_total req.info_hash h in
        let (resp', f) =
          append_peers_total req (record resp { incomplete = c.0; complete = c.1 }) h in
        ((ctx, resp'), rw (answers, e, f) refl)
  ]

  scrape_all_total :
      (ihs : List InfoHash) (scrapes : ScrapeResponse)
      → All (λ ih. 4 ≤ length ih) ihs
      → (resp : ScrapeResponse) × (scrape_all store ihs scrapes s ≡ (ok resp, s))
  unfolding scrape_all
  scrape_all_total [] scrapes h = (scrapes, refl)
  scrape_all_total (ih ∷ ihs) scrapes h =
      let (c, e) = scrape_total ih h.0 in
      let (resp, f) =
        scrape_all_total ihs
          (scrapes
            ++ record { info_hash = ih; snatches = c.2; complete = c.1; incomplete = c.0 } ∷ [])
          h.1 in
      (resp, rw e f)

  pub respond_scrape_total :
      (ctx : Context) (req : ScrapeRequest) (resp : ScrapeResponse)
      → All (λ ih. 4 ≤ length ih) req.info_hashes
      → (r : Context × ScrapeResponse) × (respond_scrape store ctx req resp s ≡ (ok r, s))
  unfolding respond_scrape
  respond_scrape_total ctx req resp h = elim (Bool-cases ctx.skip_response) [
    | inl skips ↦ ((ctx, resp), rw skips refl)
    | inr answers ↦
        let (resp', e) = scrape_all_total req.info_hashes resp h in
        ((ctx, resp'), rw (answers, e) refl)
  ]

module _ (now : ℤ) (range : List Peer → List Peer) (ps : PeerStore) (w : IsWell ps)
    (o : ps.closed ≡ false) where
  in_shard :
      {A : Type 0} (f : Swarm → A) (a : A) (sw : Option Swarm)
      → (b : A) × (◌≡◌ {A = Result A} (elim sw [ none ↦ ok a | some sw ↦ ok (f sw) ]) (ok b))
  in_shard f a none = (a, refl)
  in_shard f a (some sw) = (f sw, refl)

  count_peers_total :
      (ih : InfoHash) (v6 : Bool) → 4 ≤ length ih → (c : ℕ × ℕ) × (count_peers ps ih v6 ≡ ok c)
  unfolding count_peers
  count_peers_total ih v6 h =
      let (i, sh, e, g, k) = select_shard_total ps w.sized ih v6 h in
      let (c, f) =
        in_shard (λ sw. (length sw.leechers % 2 ^ 32, length sw.seeders % 2 ^ 32)) (0, 0)
          (Map.get Bytes-discrete ih sh.swarms) in
      (c, rw (k, ◌>>=◌) f)

  pub memory-IsReadable : IsReadable (memory now range) ps
  unfolding memory announce_peers scrape_swarm
  memory-IsReadable = record {
    announced = λ ih fs n v6 h.
        let (i, sh, e, g, k) = select_shard_total ps w.sized ih v6 h in
        let (found, f) =
          in_shard (λ sw. swarm_peers range sw fs n) [] (Map.get Bytes-discrete ih sh.swarms) in
        (found, if_false ps.closed _ _ o ∙ ap (λ r. (r, ps)) (rw (k, ◌>>=◌) f));
    scraped = λ ih h.
        let (a, e) = count_peers_total ih false h in
        let (b, f) = count_peers_total ih true h in
        (
          ((a.0 + b.0) % 2 ^ 32, (a.1 + b.1) % 2 ^ 32, 0),
          if_false ps.closed _ _ o ∙ ap (λ r. (r, ps)) (rw (e, f, ◌>>=◌) refl),
        );
  }

  -- With no other hooks, every announce for a hash of four bytes or more is answered on an open,
  -- well-formed memory storage, which stays as it is: the response holds distinct peers, each in the list
  -- of its family, as many as the request wants at most or else just the announcing peer, and it has the
  -- configured intervals. The context does not skip the response.
  pub handle_announce_total :
      (interval min_interval : ℤ) (ctx : Context) (req : AnnounceRequest)
      → 4 ≤ length req.info_hash
      → ctx.skip_response ≡ false
      → (resp : AnnounceResponse) × (handle_announce
            (new_logic interval min_interval (memory now range) [] [])
            ctx
            req
            ps
          ≡ (ok (ctx, resp), ps))
        × IsAnswer req resp
        × (resp.interval ≡ interval)
        × (resp.min_interval ≡ min_interval)
  unfolding handle_announce new_logic announce_hooks respond_announce
  handle_announce_total interval min_interval ctx req h k =
      let store = memory now range in
      let (c, e) = scrape_total store ps memory-IsReadable req.info_hash h in
      let base : AnnounceResponse = record {
        complete = c.1;
        incomplete = c.0;
        interval = interval;
        min_interval = min_interval;
        ipv4_peers = [];
        ipv6_peers = [];
      } in
      let (resp, f) = append_peers_total store ps memory-IsReadable req base h in
      let a : Answers req base resp =
        subst (λ r. Gives (Answers req base) r.0) f
          (append_peers-Gives store (memory-IsLimited now range) req base ps) in
      (resp, rw (k, e, f) refl, a.0, a.1.0, a.1.1)
