-- ===== src/Middleware/Safety.antt =====
-- middleware/logic.go: chains of hooks that keep an invariant of the storage and do not panic.
use mochi.Base.{
  ◌≤◌, ◌≡◌, ◌≢◌, refl, sym, subst, Bool, true, false, List, [], ◌∷◌, length, All, All-append,
  if◌then◌else◌,
}
use mochi.Base.Int.{ℤ}
use mochi.Result.{Result, ok, err, panic}
use mochi.Bittorrent.Peer.{Peer}
use mochi.Bittorrent.Request.{
  AnnounceRequest, AnnounceResponse, ScrapeRequest, ScrapeResponse, peers,
}
use mochi.Storage.Memory.{PeerStore}
use mochi.Storage.Memory.Refines.{IsWell}
use mochi.Middleware.Storage.{memory, and_then}
use mochi.Middleware.Response.{Context}
use mochi.Middleware.Interaction.{interact}
use mochi.Middleware.Swarm.{all_calls, all_calls-HasHash, run-open, interact-run}
use mochi.Middleware.Respond.{memory-IsReadable, respond_announce_total, respond_scrape_total}
use mochi.Middleware.Logic.{
  Hook, Logic, response_hook, swarm_interaction_hook, announce_hooks, scrape_hooks, new_logic,
  handle_announce, handle_scrape, after_announce, after_scrape, logged,
}
use mochi.Middleware.ClientApproval.{ClientApproval, client_approval_hook, approve_announce}
use mochi.Middleware.VarInterval.{VarInterval, var_interval_hook, vary_announce}

-- A call ends in a state where the invariant holds, and does not panic.
abbrev pub IsSafe : {S A : Type 0} → (S → Type 0) → Result A × S → Type 0
IsSafe Good (r, s) = Good s × (r ≢ panic)

abbrev pub HasHashes : ScrapeRequest → Type 0
HasHashes req = All (λ ih. 4 ≤ length ih) req.info_hashes

-- A hook that is safe on every request whose hashes have four bytes.
pub record IsSafeHook {S : Type 0} (Good : S → Type 0) (h : Hook S) : Type 0 where
  pub announce_safe :
      (ctx : Context) (req : AnnounceRequest) (resp : AnnounceResponse) (s : S)
      → 4 ≤ length req.info_hash
      → Good s
      → IsSafe Good (h.handle_announce ctx req resp s)
  pub scrape_safe :
      (ctx : Context) (req : ScrapeRequest) (resp : ScrapeResponse) (s : S)
      → HasHashes req
      → Good s
      → IsSafe Good (h.handle_scrape ctx req resp s)

module _ {S : Type 0} (Good : S → Type 0) where
  pub and_then-IsSafe :
      {A B : Type 0} (r : Result A × S) (f : A → S → Result B × S)
      → IsSafe Good r
      → ((a : A) (s : S) → Good s → IsSafe Good (f a s))
      → IsSafe Good (and_then r f)
  and_then-IsSafe (ok a, s) f h k = k a s h.0
  and_then-IsSafe (err e, s) f h k = (h.0, λ p. cc)
  and_then-IsSafe (panic, s) f h k = absurd (h.1 refl)

  ok-IsSafe :
      {A : Type 0} (r : Result A × S) (a : A) (s : S) → r ≡ (ok a, s) → Good s → IsSafe Good r
  ok-IsSafe r a s e h = subst (IsSafe Good) (sym e) (h, λ p. cc)

  pub if-IsSafe :
      {A : Type 0} (b : Bool) (r r' : Result A × S)
      → IsSafe Good r
      → IsSafe Good r'
      → IsSafe Good (if◌then◌else◌ {A = Result A × S} b r r')
  if-IsSafe true r r' h k = h
  if-IsSafe false r r' h k = k

  announce_hooks-IsSafe :
      (hs : List (Hook S)) (ctx : Context) (req : AnnounceRequest) (resp : AnnounceResponse) (s : S)
      → All (IsSafeHook Good) hs
      → 4 ≤ length req.info_hash
      → Good s
      → IsSafe Good (announce_hooks hs ctx req resp s)
  unfolding announce_hooks
  announce_hooks-IsSafe [] ctx req resp s h l g = (g, λ p. cc)
  announce_hooks-IsSafe (k ∷ hs) ctx req resp s h l g =
      and_then-IsSafe _ _ (h.0.announce_safe ctx req resp s l g)
        λ cr s' g'. announce_hooks-IsSafe hs cr.0 req cr.1 s' h.1 l g'

  scrape_hooks-IsSafe :
      (hs : List (Hook S)) (ctx : Context) (req : ScrapeRequest) (resp : ScrapeResponse) (s : S)
      → All (IsSafeHook Good) hs
      → HasHashes req
      → Good s
      → IsSafe Good (scrape_hooks hs ctx req resp s)
  unfolding scrape_hooks
  scrape_hooks-IsSafe [] ctx req resp s h l g = (g, λ p. cc)
  scrape_hooks-IsSafe (k ∷ hs) ctx req resp s h l g =
      and_then-IsSafe _ _ (h.0.scrape_safe ctx req resp s l g)
        λ cr s' g'. scrape_hooks-IsSafe hs cr.0 req cr.1 s' h.1 l g'

  pub client_approval-IsSafeHook : (a : ClientApproval) → IsSafeHook Good (client_approval_hook a)
  unfolding approve_announce
  client_approval-IsSafeHook a = record {
    announce_safe = λ ctx req resp s l g. if-IsSafe _ _ _ (g, λ p. cc) (g, λ p. cc);
    scrape_safe = λ ctx req resp s l g. (g, λ p. cc);
  }

  pub var_interval-IsSafeHook : (v : VarInterval) → IsSafeHook Good (var_interval_hook v)
  unfolding vary_announce
  var_interval-IsSafeHook v = record {
    announce_safe = λ ctx req resp s l g. if-IsSafe _ _ _ (g, λ p. cc) (g, λ p. cc);
    scrape_safe = λ ctx req resp s l g. (g, λ p. cc);
  }

  logged-IsSafe : {A : Type 0} (r : Result A × S) → IsSafe Good r → IsSafe Good (logged r)
  logged-IsSafe (ok a, s) h = (h.0, λ p. cc)
  logged-IsSafe (err e, s) h = (h.0, λ p. cc)
  logged-IsSafe (panic, s) h = absurd (h.1 refl)

-- Every hook of the chains is safe.
pub record IsSafeLogic {S : Type 0} (Good : S → Type 0) (l : Logic S) : Type 0 where
  pub pre : All (IsSafeHook Good) l.pre_hooks
  pub post : All (IsSafeHook Good) l.post_hooks

module _ {S : Type 0} (Good : S → Type 0) (l : Logic S) (safe : IsSafeLogic Good l) where
  pub handle_announce-IsSafe :
      (ctx : Context) (req : AnnounceRequest) (s : S)
      → 4 ≤ length req.info_hash
      → Good s
      → IsSafe Good (handle_announce l ctx req s)
  unfolding handle_announce
  handle_announce-IsSafe ctx req s h g =
      announce_hooks-IsSafe Good l.pre_hooks ctx req _ s safe.pre h g

  pub handle_scrape-IsSafe :
      (ctx : Context) (req : ScrapeRequest) (s : S)
      → HasHashes req
      → Good s
      → IsSafe Good (handle_scrape l ctx req s)
  unfolding handle_scrape
  handle_scrape-IsSafe ctx req s h g =
      scrape_hooks-IsSafe Good l.pre_hooks ctx req [] s safe.pre h g

  pub after_announce-IsSafe :
      (ctx : Context) (req : AnnounceRequest) (resp : AnnounceResponse) (s : S)
      → 4 ≤ length req.info_hash
      → Good s
      → IsSafe Good (after_announce l ctx req resp s)
  unfolding after_announce
  after_announce-IsSafe ctx req resp s h g =
      logged-IsSafe Good _ (announce_hooks-IsSafe Good l.post_hooks ctx req resp s safe.post h g)

  pub after_scrape-IsSafe :
      (ctx : Context) (req : ScrapeRequest) (resp : ScrapeResponse) (s : S)
      → HasHashes req
      → Good s
      → IsSafe Good (after_scrape l ctx req resp s)
  unfolding after_scrape
  after_scrape-IsSafe ctx req resp s h g =
      logged-IsSafe Good _ (scrape_hooks-IsSafe Good l.post_hooks ctx req resp s safe.post h g)

-- The memory storage is open and well formed.
abbrev pub IsOpen : PeerStore → Type 0
IsOpen ps = IsWell ps × (ps.closed ≡ false)

if-IsOpen : (b : Bool) (ps qs : PeerStore) → IsOpen ps → IsOpen qs → IsOpen (if b then ps else qs)
if-IsOpen true ps qs h k = h
if-IsOpen false ps qs h k = k

module _ (now : ℤ) (range : List Peer → List Peer) where
  response_hook-IsSafeHook : IsSafeHook IsOpen (response_hook (memory now range))
  response_hook-IsSafeHook = record {
    announce_safe = λ ctx req resp ps l g.
        let (r, e) =
          respond_announce_total (memory now range) ps (memory-IsReadable now range ps g.0 g.1) ctx
            req resp l in
        ok-IsSafe IsOpen _ r ps e g;
    scrape_safe = λ ctx req resp ps l g.
        let (r, e) =
          respond_scrape_total (memory now range) ps (memory-IsReadable now range ps g.0 g.1) ctx
            req resp l in
        ok-IsSafe IsOpen _ r ps e g;
  }

  interact-IsSafe :
      (ctx : Context) (req : AnnounceRequest) (ps : PeerStore)
      → 4 ≤ length req.info_hash
      → IsOpen ps
      → IsSafe IsOpen (interact (memory now range) ctx req ps)
  interact-IsSafe ctx req ps l g =
      ok-IsSafe IsOpen _ ctx _ (interact-run now range ctx req ps l g.0 g.1) (
        if-IsOpen ctx.skip_swarm_interaction ps _ g (
          run-open now range (all_calls now req.event req.left req.info_hash (peers req.peer)) ps
            (all_calls-HasHash now range req.event req.left req.info_hash l (peers req.peer)) g.0
            g.1))

  swarm_interaction_hook-IsSafeHook : IsSafeHook IsOpen (swarm_interaction_hook (memory now range))
  swarm_interaction_hook-IsSafeHook = record {
    announce_safe = λ ctx req resp ps l g.
        and_then-IsSafe IsOpen _ _ (interact-IsSafe ctx req ps l g) λ c s g'. (g', λ p. cc);
    scrape_safe = λ ctx req resp s l g. (g, λ p. cc);
  }

  -- The logic over the memory storage is safe, in that the storage stays open and well formed and no call
  -- panics, if the hooks that are configured besides its own are.
  pub new_logic-IsSafeLogic :
      (interval min_interval : ℤ) (pre post : List (Hook PeerStore))
      → All (IsSafeHook IsOpen) pre
      → All (IsSafeHook IsOpen) post
      → IsSafeLogic IsOpen (new_logic interval min_interval (memory now range) pre post)
  unfolding new_logic
  new_logic-IsSafeLogic interval min_interval pre post h k = record {
    pre = All-append (IsSafeHook IsOpen) pre _ h (response_hook-IsSafeHook, tt);
    post = All-append (IsSafeHook IsOpen) post _ k (swarm_interaction_hook-IsSafeHook, tt);
  }
