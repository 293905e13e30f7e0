-- ===== src/Frontend/Tracker.antt =====
-- cmd/mochi: the UDP and the HTTP frontend over one logic and one storage, as they run.
use mochi.Base.{
  ℕ, Bool, ◌<◌, ◌^◌, ◌≡◌, ap, Option, none, some, List, [], ◌∷◌, ◌++◌, All, All-append,
}
use mochi.Base.Int.{ℤ, pos, IsNatural}
use mochi.Middleware.Timed.{IsTimedHook, IsTimedLogic, new_logic-IsTimedLogic}
use mochi.Result.{Result, ok, err, panic, ◌>>=◌, Error, Act}
use mochi.Bittorrent.Peer.{Peer}
use mochi.Storage.Memory.{PeerStore, new_peer_storage}
use mochi.Storage.Memory
use mochi.Storage.Memory.Gc.{gc}
use mochi.Storage.Memory.Fresh.{new_peer_storage-IsWell}
use mochi.Middleware.Safety.{IsSafe, IsSafeLogic, IsSafeHook, IsOpen, new_logic-IsSafeLogic}
use mochi.Frontend.Udp.Handle.{Server, Task}
use mochi.Frontend.Udp.System.{HasHash}
use mochi.Frontend.Udp.Tracker.{memory_server, gc-IsOpen}
use mochi.Frontend.Udp.ConnectionId.{ConnectionIdGenerator}
use mochi.Frontend.Options.{ParseOptions}
use mochi.Middleware.Storage.{memory}
use mochi.Storage.Memory.Read
use mochi.Base.Bytes.{Bytes}
use mochi.Base.Map.{Map}
use mochi.Netip.{Addr}
use mochi.Frontend.Udp.Reach
use mochi.Frontend.Udp.Reach.{
  System, running, crashed, started, IsServing, Step-IsServing, started-HasHash,
}
use mochi.Middleware.Logic.{Logic, Hook, new_logic}
use mochi.Frontend.Http.Config.{Config, validate}
use mochi.Frontend.Http.Parser.{RequestCtx}
use mochi.Frontend.Http.Handle
use mochi.Frontend.Http.Handle.{HttpFe, Platform, serve, built, new_frontend}
use mochi.Frontend.Http.System.{Served, ArePingers, serve-Served}

-- A panic of a handler ends the process; the task of a request waits to run.
abbrev pub accepted : {S : Type 0} → Result Handle.Reply × S → List Task → System S
accepted (ok reply, s) ts = running s (started reply.task ts)
accepted (err e, s) ts = crashed
accepted (panic, s) ts = crashed

-- A step of the UDP frontend, of a task that either frontend started, or of the collector; or a request that
-- the HTTP frontend serves.
pub data Step {S : Type 0} (gc : ℤ → S → S) (p : Platform) (u : Server S) (h : HttpFe S)
    : System S → System S → Type 0 where
  udp : {v w : System S} → Reach.Step gc u v w → Step gc p u h v w
  http :
      (s : S) (ts : List Task) (r : RequestCtx) (now : ℕ)
      → Step gc p u h (running s ts) (accepted (serve p h r now s) ts)

pub data Reaches {S : Type 0} (gc : ℤ → S → S) (p : Platform) (u : Server S) (h : HttpFe S)
    (v : System S) : System S → Type 0 where
  here : Reaches gc p u h v v
  next : {w x : System S} → Reaches gc p u h v w → Step gc p u h w x → Reaches gc p u h v x

module _ {S : Type 0} (Good : S → Type 0) (gc : ℤ → S → S) (p : Platform) (u : Server S)
    (h : HttpFe S) (safe_udp : (now : ℕ) → IsSafeLogic Good (u.logic now))
    (safe_http : (now : ℕ) → IsSafeLogic Good (h.logic now))
    (timed_http : (now : ℕ) → IsTimedLogic (h.logic now))
    (pings : (now : ℕ) → ArePingers Good (h.pingers now))
    (collects : (cutoff : ℤ) (s : S) → Good s → Good (gc cutoff s)) where
  accepted-IsServing :
      (o : Result Handle.Reply × S) (ts : List Task)
      → Served Good o
      → All HasHash ts
      → IsServing Good (accepted o ts)
  accepted-IsServing (ok reply, s) ts g k =
      (g.0, started-HasHash Good gc u safe_udp collects reply.task ts g.1 k)
  accepted-IsServing (err e, s) ts g k = g
  accepted-IsServing (panic, s) ts g k = g

  step-IsServing : {v w : System S} → Step gc p u h v w → IsServing Good v → IsServing Good w
  step-IsServing (udp st) g = Step-IsServing Good gc u safe_udp collects st g
  step-IsServing (http s ts r now) g =
      accepted-IsServing (serve p h r now s) ts
        (serve-Served Good p h safe_http timed_http pings r now s g.0) g.1

  -- Every state that the tracker reaches from one where it runs with no task and a good storage, by packets,
  -- requests, tasks of either frontend and collections in any order, is one where it still runs, its storage
  -- is good and every task that waits has its hashes, if the logic of both frontends and the pingers are safe,
  -- that of the HTTP frontend leaves no interval negative, and the collector keeps the storage good.
  pub Reaches-IsServing :
      {s : S} {v : System S} → Good s → Reaches gc p u h (running s []) v → IsServing Good v
  Reaches-IsServing g here = (g, tt)
  Reaches-IsServing g (next r st) = step-IsServing st (Reaches-IsServing g r)

built_ok : {A : Type 0} (e : Option Error) (a b : A) → built e a ≡ ok b → a ≡ b
unfolding built
built_ok none a b h = cc
built_ok (some e) a b h = absurd (cc)

bind_built :
    {A B : Type 0} (e : Option Error) (a : A) (f : A → Result B) (b : B)
    → (built e a >>= f) ≡ ok b
    → f a ≡ ok b
unfolding built
bind_built none a f b h = h
bind_built (some e) a f b h = absurd (cc)

new_frontend_kept :
    {S : Type 0} (p : Platform) (logic : ℕ → Logic S) (pingers : ℕ → List (Act S (Unit {0})))
    (c : Config) (h : HttpFe S)
    → new_frontend p logic pingers c ≡ ok h
    → (logic ≡ h.logic) × (pingers ≡ h.pingers)
unfolding new_frontend
new_frontend_kept p logic pingers c h e =
    let q = built_ok _ _ h (bind_built (validate c).1 (validate c).0 _ h e) in
    (ap (λ fe. fe.logic) q, ap (λ fe. fe.pingers) q)

-- the storage's own ping, behind those of the hooks
abbrev pub memory_pingers : List (Act PeerStore (Unit {0})) → ℕ → List (Act PeerStore (Unit {0}))
memory_pingers pingers now = pingers ++ Read.ping ∷ []

ping-IsSafe : (s : PeerStore) → IsOpen s → IsSafe IsOpen (Read.ping s)
unfolding Read.ping
ping-IsSafe s g = (g, λ e. cc)

module _ (visit : List Peer → List Peer) (interval min_interval : ℤ) (natural : IsNatural interval)
    (natural_min : IsNatural min_interval) (pre post : List (Hook PeerStore))
    (pre_safe : All (IsSafeHook IsOpen) pre) (pre_timed : All IsTimedHook pre)
    (post_safe : All (IsSafeHook IsOpen) post) (pingers : List (Act PeerStore (Unit {0})))
    (pingers_safe : ArePingers IsOpen pingers) (options : ParseOptions)
    (generator : ConnectionIdGenerator) (mac lower : Bytes → Bytes)
    (range : Map Addr Bool → Map Addr Bool) (p : Platform) where
  -- A tracker with the UDP and the HTTP frontend over one new memory storage, of shards that fit in 31 bits,
  -- never panics, by whatever packets, HTTP requests, tasks and collections in whatever order, and its
  -- storage stays open and well formed, if the configured intervals are not negative, the configured hooks
  -- and their pings are safe, those before a response make no interval negative, and the HTTP frontend
  -- starts.
  pub memory_tracker-IsServing :
      (n : ℤ) (c : Config) (h : HttpFe PeerStore) (v : System PeerStore)
      → Memory.validate n < 2 ^ 31
      → new_frontend p
          (λ now. new_logic interval min_interval (memory (pos now) visit) pre post)
          (memory_pingers pingers)
          c
        ≡ ok h
      → Reaches gc p
          (memory_server visit interval min_interval pre post options generator mac lower range)
          h
          (running (new_peer_storage n) [])
          v
      → IsServing IsOpen v
  unfolding memory_server
  memory_tracker-IsServing n c h v small e r =
      let fresh = new_peer_storage-IsWell n small in
      let safe : (now : ℕ)
          → IsSafeLogic IsOpen (new_logic interval min_interval (memory (pos now) visit) pre post) =
        λ now.
          new_logic-IsSafeLogic (pos now) visit interval min_interval pre post pre_safe post_safe in
      let timed : (now : ℕ)
          → IsTimedLogic (new_logic interval min_interval (memory (pos now) visit) pre post) =
        λ now.
          new_logic-IsTimedLogic interval min_interval (memory (pos now) visit) pre post natural
            natural_min pre_timed in
      let kept = new_frontend_kept p _ _ c h e in
      Reaches-IsServing IsOpen gc p
        (memory_server visit interval min_interval pre post options generator mac lower range) h
        safe (λ now. rw (← kept.0) (safe now)) (λ now. rw (← kept.0) (timed now))
        (λ now. rw (← kept.1) (
          All-append (λ q. (s : PeerStore) → IsOpen s → IsSafe IsOpen (q s)) pingers _ pingers_safe
            (ping-IsSafe, tt)))
        gc-IsOpen (fresh.0, fresh.1) r
