-- ===== src/Frontend/Udp/System.antt =====
-- frontend/udp/frontend.go: the server as it runs. Packets arrive at any time, the tasks that they start run
-- at any later time and in any order, and the garbage collector runs between them.
use mochi.Base.{
  ℕ, ◌≤◌, ◌≢◌, refl, Bool, true, false, Bool-cases, inl, inr, Option, none, some, arith, length,
  length-take, ltb, ◌/◌, ◌==◌, ◌||◌, take, drop, if◌then◌else◌, String,
}
use mochi.Base.Bytes.{Bytes, uint_be}
use mochi.Result.{Result, ok, err, panic, Ensures}
use mochi.Bittorrent.Request.{AnnounceRequest, AnnounceResponse, ScrapeRequest, ScrapeResponse}
use mochi.Middleware.Response.{Context}
use mochi.Middleware.Safety.{
  IsSafe, HasHashes, IsSafeLogic, handle_announce-IsSafe, handle_scrape-IsSafe,
  after_announce-IsSafe, after_scrape-IsSafe,
}
use mochi.Frontend.Udp.ConnectionId.{validate_total}
use mochi.Frontend.Udp.Parser.{
  Request, parse_announce, parse_scrape, connect_action_id, announce_action_id,
  announce_v6_action_id, scrape_action_id,
}
use mochi.Frontend.Udp.Safety.{parse_announce-ne-panic, parse_scrape-ne-panic}
use mochi.Frontend.Udp.Hashes.{parse_announce-hash, parse_scrape-hashes}
use mochi.Frontend.Udp.Writer.{second}
use mochi.Frontend.Udp.Handle.{
  Server, Moment, Task, announced, scraped, Reply, background, fails, refuses, answers,
  handle_connect, announce_outcome, handle_announce_action, scrape_outcome, handle_scrape_action,
  dispatch, guarded, handle_request, run_task,
}

-- The hashes of a task's request have four bytes or more.
abbrev pub HasHash : Task → Type 0
HasHash (announced ctx req resp) = 4 ≤ length req.info_hash
HasHash (scraped ctx req resp) = HasHashes req

abbrev pub TaskHasHash : Option Task → Type 0
TaskHasHash none = Unit
TaskHasHash (some t) = HasHash t

-- The outcome of a request: the storage keeps its invariant, there is no panic, and a task has hashes.
abbrev pub Served : {S : Type 0} → (S → Type 0) → Result Reply × S → Type 0
Served Good (ok reply, s) = Good s × TaskHasHash reply.task
Served Good (err e, s) = ⊥
Served Good (panic, s) = ⊥

module _ {S : Type 0} (Good : S → Type 0) (f : Server S)
    (safe : (now : ℕ) → IsSafeLogic Good (f.logic now)) where
  module _ (r : Request) (m : Moment) (tx_id : Bytes) where
    answers-task :
        (name : String) (c : Bool) (packet : Bytes) (t : Task)
        → HasHash t
        → TaskHasHash (answers name c packet t).task
    unfolding answers fails
    answers-task name true packet t h = tt
    answers-task name false packet t h = h

    announce_outcome-Served :
        (v6_action : Bool) (req : AnnounceRequest) (o : Result (Context × AnnounceResponse) × S)
        → 4 ≤ length req.info_hash
        → IsSafe Good o
        → Served Good (announce_outcome f r m tx_id v6_action req o)
    unfolding announce_outcome refuses fails
    announce_outcome-Served v6_action req (ok (ctx, resp), s) h g =
        (g.0, answers-task _ m.canceled _ (announced ctx req resp) h)
    announce_outcome-Served v6_action req (err e, s) h g = (g.0, tt)
    announce_outcome-Served v6_action req (panic, s) h g = absurd (g.1 refl)

    scrape_outcome-Served :
        (req : ScrapeRequest) (o : Result (Context × ScrapeResponse) × S)
        → HasHashes req
        → IsSafe Good o
        → Served Good (scrape_outcome f r m tx_id req o)
    unfolding scrape_outcome refuses fails
    scrape_outcome-Served req (ok (ctx, resp), s) h g =
        (g.0, answers-task _ m.canceled _ (scraped ctx req resp) h)
    scrape_outcome-Served req (err e, s) h g = (g.0, tt)
    scrape_outcome-Served req (panic, s) h g = absurd (g.1 refl)

    announce_action-Served :
        (v6_action : Bool) (p : Result AnnounceRequest) (s : S)
        → Ensures (λ q. 4 ≤ length q.info_hash) p
        → p ≢ panic
        → Good s
        → Served Good (handle_announce_action f r m tx_id v6_action p s)
    unfolding handle_announce_action fails
    announce_action-Served v6_action (ok req) s h n g =
        announce_outcome-Served v6_action req _ (h.holds req refl) (
          handle_announce-IsSafe Good (f.logic m.now) (safe m.now) background req s
            (h.holds req refl) g)
    announce_action-Served v6_action (err e) s h n g = (g, tt)
    announce_action-Served v6_action panic s h n g = absurd (n refl)

    scrape_action-Served :
        (p : Result ScrapeRequest) (s : S)
        → Ensures HasHashes p
        → p ≢ panic
        → Good s
        → Served Good (handle_scrape_action f r m tx_id p s)
    unfolding handle_scrape_action fails
    scrape_action-Served (ok req) s h n g = scrape_outcome-Served req _ (h.holds req refl) (
        handle_scrape-IsSafe Good (f.logic m.now) (safe m.now) background req s (h.holds req refl)
          g)
    scrape_action-Served (err e) s h n g = (g, tt)
    scrape_action-Served panic s h n g = absurd (n refl)

    connect-task : (conn_id : Bytes) → TaskHasHash (handle_connect f r m tx_id conn_id).task
    unfolding handle_connect fails
    connect-task conn_id = ground arith

    if-Served :
        (b : Bool) (o o' : Result Reply × S)
        → Served Good o
        → Served Good o'
        → Served Good (if◌then◌else◌ {A = Result Reply × S} b o o')
    if-Served true o o' h k = h
    if-Served false o o' h k = k

    dispatch-Served :
        (conn_id : Bytes) (action_id : ℕ) (s : S)
        → Good s
        → Served Good (dispatch f r m tx_id conn_id action_id s)
    unfolding dispatch fails
    dispatch-Served conn_id action_id s g =
        let v6 = action_id == announce_v6_action_id in
        if-Served (action_id == connect_action_id) _ _ (g, connect-task conn_id)
          (if-Served (action_id == announce_action_id || v6) _ _
            (announce_action-Served v6 (parse_announce f.lower f.range r v6 f.options) s
              (parse_announce-hash f.range f.lower r v6 f.options)
              (parse_announce-ne-panic f.lower f.range r v6 f.options) g)
            (if-Served (action_id == scrape_action_id) _ _
              (scrape_action-Served (parse_scrape f.range r f.options) s
                (parse_scrape-hashes f.range r f.options)
                (parse_scrape-ne-panic f.lower f.range r f.options) g)
              (g, tt)))

    guarded-Served :
        (valid : Bool) (conn_id : Bytes) (action_id : ℕ) (s : S)
        → Good s
        → Served Good (guarded f r m tx_id (ok valid) conn_id action_id s)
    unfolding guarded fails
    guarded-Served valid conn_id action_id s g =
        if-Served (action_id == connect_action_id || valid) _ _
          (dispatch-Served conn_id action_id s g) (g, tt)

  -- Whatever a packet holds and whenever it comes, a request is answered, ignored or refused with no panic,
  -- over a safe logic: the invariant of the storage is kept, and the task that is started, if one is, has
  -- hashes of four bytes or more.
  pub handle_request-Served :
      (r : Request) (m : Moment) (s : S) → Good s → Served Good (handle_request f r m s)
  unfolding handle_request fails
  handle_request-Served r m s g = elim (Bool-cases (ltb (length r.packet) 16)) [
    | inl short ↦ rw short (g, tt)
    | inr long ↦
        let (valid, e) =
          validate_total f.mac f.generator (take 8 r.packet) r.ip (m.now / second)
            (ground (arith, length-take 8 r.packet)) in
        rw (long, e)
          (guarded-Served r m (take 4 (drop 12 r.packet)) valid (take 8 r.packet)
            (uint_be (take 4 (drop 8 r.packet))) s g)
  ]

  pub run_task-IsSafe :
      (now : ℕ) (t : Task) (s : S) → HasHash t → Good s → IsSafe Good (run_task f now t s)
  unfolding run_task
  run_task-IsSafe now (announced ctx req resp) s h g =
      after_announce-IsSafe Good (f.logic now) (safe now) ctx req resp s h g
  run_task-IsSafe now (scraped ctx req resp) s h g =
      after_scrape-IsSafe Good (f.logic now) (safe now) ctx req resp s h g
