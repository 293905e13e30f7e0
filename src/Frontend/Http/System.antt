-- ===== src/Frontend/Http/System.antt =====
-- frontend/http/frontend.go: every request is answered with no panic.
use mochi.Base.{
  ℕ, ◌≤◌, ◌≡◌, ◌≢◌, if◌then◌else◌, refl, Bool, true, false, Option, none, some, List, [], ◌∷◌, All,
  length,
}
use mochi.Base.Bytes.{Bytes, Bytes-discrete}
use mochi.Base.Map
use mochi.Result.{Result, ok, err, panic, Act, Ensures}
use mochi.Bittorrent.Request.{AnnounceRequest, AnnounceResponse, ScrapeRequest, ScrapeResponse}
use mochi.Middleware.Response.{Context}
use mochi.Base.Int.{ℤ, pos, negsuc, IsNatural, quot}
use mochi.Netip.{Addr}
use mochi.Middleware.Timed.{IsTimed, GivesTimed, IsTimedLogic, handle_announce-GivesTimed}
use mochi.Frontend.Udp.Writer.{second}
use mochi.Frontend.Http.Writer.{in_seconds, is_positive, appendable, write_announce_response}
use mochi.Middleware.Logic.{ping}
use mochi.Middleware.Safety.{
  IsSafe, HasHashes, IsSafeLogic, and_then-IsSafe, handle_announce-IsSafe, handle_scrape-IsSafe,
}
use mochi.Frontend.Udp.Handle.{Task, announced, scraped, background}
use mochi.Frontend.Udp.System.{HasHash, TaskHasHash}
use mochi.Frontend.Http.Parser.{RequestCtx}
use mochi.Frontend.Http.Safety.{
  parse_announce-ne-panic, parse_scrape-ne-panic, parse_announce-hash, parse_scrape-hashes,
}
use mochi.Frontend.Http.Routes.{Handler, announcing, scraping, pinging}
use mochi.Frontend.Http.Handle.{
  HttpFe, Platform, Reply, fails, refuses, answers, with_status, announce_outcome, announce_parsed,
  announce_route, scrape_outcome, scrape_parsed, scrape_route, ping_outcome, ping_route, routed,
  serve, without_params,
}

-- The outcome of a request: the storage keeps its invariant, there is no panic, and a task has hashes.
abbrev pub Served : {S : Type 0} → (S → Type 0) → Result Reply × S → Type 0
Served Good (ok reply, s) = Good s × TaskHasHash reply.task
Served Good (err e, s) = ⊥
Served Good (panic, s) = ⊥

-- What is written without a panic.
abbrev Writes : Result Bytes → Type 0
Writes (ok body) = Unit
Writes (err e) = ⊥
Writes panic = ⊥

quot-IsNatural : (z : ℤ) (d : ℕ) → IsNatural z → IsNatural (quot z d)
unfolding quot
quot-IsNatural (pos n) d h = tt
quot-IsNatural (negsuc n) d h = absurd h

in_seconds-IsTimed : (resp : AnnounceResponse) → IsTimed resp → IsTimed (in_seconds resp)
unfolding in_seconds
in_seconds-IsTimed resp (h, k) = (
  if-IsNatural (is_positive resp.interval) _ _ (quot-IsNatural resp.interval second h) h,
  if-IsNatural _ _ _ (quot-IsNatural resp.min_interval second k) k,
)
  where
    if-IsNatural : (b : Bool) (x y : ℤ) → IsNatural x → IsNatural y → IsNatural (if b then x else y)
    if-IsNatural true x y h k = h
    if-IsNatural false x y h k = k

appendable_ok : (z : ℤ) → IsNatural z → (n : ℕ) × (appendable z ≡ ok n)
unfolding appendable
appendable_ok (pos n) h = (n, refl)
appendable_ok (negsuc n) h = absurd h

-- Pingers that keep the invariant and do not panic.
abbrev pub ArePingers : {S : Type 0} → (S → Type 0) → List (Act S (Unit {0})) → Type 0
ArePingers {S} Good = All λ p. (s : S) → Good s → IsSafe Good (p s)

module _ {S : Type 0} (Good : S → Type 0) (p : Platform) (f : HttpFe S)
    (safe : (now : ℕ) → IsSafeLogic Good (f.logic now))
    (timed : (now : ℕ) → IsTimedLogic (f.logic now))
    (pings : (now : ℕ) → ArePingers Good (f.pingers now)) (r : RequestCtx) (now : ℕ) where
  answers-Served :
      (c : Bool) (written : Result Bytes) (t : Task) (s : S)
      → Writes written
      → HasHash t
      → Good s
      → Served Good (answers c written t, s)
  unfolding answers fails
  answers-Served true written t s w h g = (g, tt)
  answers-Served false (ok body) t s w h g = (g, h)
  answers-Served false (err e) t s w h g = w
  answers-Served false panic t s w h g = w

  in_seconds-Writes :
      (addr_string : Addr → Bytes) (resp : AnnounceResponse) (compact include_peer_id : Bool)
      → IsTimed resp
      → Writes (write_announce_response p.append_uint addr_string resp compact include_peer_id)
  unfolding write_announce_response
  in_seconds-Writes addr_string resp compact include_peer_id t =
      let (x, a) = appendable_ok _ (in_seconds-IsTimed resp t).0 in
      let (y, b) = appendable_ok _ (in_seconds-IsTimed resp t).1 in rw (a, b) tt

  announce_outcome-Served :
      (req : AnnounceRequest) (o : Result (Context × AnnounceResponse) × S)
      → 4 ≤ length req.info_hash
      → IsSafe Good o
      → GivesTimed o
      → Served Good (announce_outcome p f r now req o)
  unfolding announce_outcome refuses fails
  announce_outcome-Served req (ok (ctx, resp), s) h g t =
      answers-Served r.canceled _ (announced ctx (without_params req) _) s
        (in_seconds-Writes p.addr_string resp _ _ t) h g.0
  announce_outcome-Served req (err e, s) h g t = (g.0, tt)
  announce_outcome-Served req (panic, s) h g t = absurd (g.1 refl)

  scrape_outcome-Served :
      (req : ScrapeRequest) (o : Result (Context × ScrapeResponse) × S)
      → HasHashes req
      → IsSafe Good o
      → Served Good (scrape_outcome p f r now req o)
  unfolding scrape_outcome refuses fails
  scrape_outcome-Served req (ok (ctx, resp), s) h g =
      answers-Served r.canceled (ok _) (scraped ctx (record req { params = none }) _) s tt h g.0
  scrape_outcome-Served req (err e, s) h g = (g.0, tt)
  scrape_outcome-Served req (panic, s) h g = absurd (g.1 refl)

  announce_parsed-Served :
      (q : Result AnnounceRequest) (s : S)
      → Ensures (λ req. 4 ≤ length req.info_hash) q
      → q ≢ panic
      → Good s
      → Served Good (announce_parsed p f r now q s)
  unfolding announce_parsed fails
  announce_parsed-Served (ok req) s h n g =
      announce_outcome-Served req _ (h.holds req refl)
        (handle_announce-IsSafe Good (f.logic now) (safe now) background req s (h.holds req refl) g)
        (handle_announce-GivesTimed (f.logic now) background req s (timed now))
  announce_parsed-Served (err e) s h n g = (g, tt)
  announce_parsed-Served panic s h n g = absurd (n refl)

  scrape_parsed-Served :
      (q : Result ScrapeRequest) (s : S)
      → Ensures HasHashes q
      → q ≢ panic
      → Good s
      → Served Good (scrape_parsed p f r now q s)
  unfolding scrape_parsed fails
  scrape_parsed-Served (ok req) s h n g =
      scrape_outcome-Served req _ (h.holds req refl)
        (handle_scrape-IsSafe Good (f.logic now) (safe now) background req s (h.holds req refl) g)
  scrape_parsed-Served (err e) s h n g = (g, tt)
  scrape_parsed-Served panic s h n g = absurd (n refl)

  ping-IsSafe :
      (ps : List (Act S (Unit {0}))) (s : S) → ArePingers Good ps → Good s → IsSafe Good (ping ps s)
  unfolding ping
  ping-IsSafe [] s h g = (g, λ e. cc)
  ping-IsSafe (q ∷ qs) s h g =
      and_then-IsSafe Good (q s) _ (h.0 s g) λ u s' g'. ping-IsSafe qs s' h.1 g'

  ping_outcome-Served :
      (o : Result (Unit {0}) × S) → IsSafe Good o → Served Good (ping_outcome p f r now o)
  unfolding ping_outcome with_status
  ping_outcome-Served (ok u, s) g = (g.0, tt)
  ping_outcome-Served (err e, s) g = (g.0, tt)
  ping_outcome-Served (panic, s) g = absurd (g.1 refl)

  routed-Served : (h : Option Handler) (s : S) → Good s → Served Good (routed p f r now h s)
  unfolding routed announce_route scrape_route ping_route
  routed-Served none s g = (g, tt)
  routed-Served (some announcing) s g =
      announce_parsed-Served _ s
        (parse_announce-hash p.parse_addr p.parse_addr_port p.range r f.options)
        (parse_announce-ne-panic p.parse_addr p.parse_addr_port p.range r f.options) g
  routed-Served (some scraping) s g =
      scrape_parsed-Served _ s
        (parse_scrape-hashes p.parse_addr p.parse_addr_port p.range r f.options)
        (parse_scrape-ne-panic p.parse_addr p.parse_addr_port p.range r f.options) g
  routed-Served (some pinging) s g =
      ping_outcome-Served _ (ping-IsSafe (f.pingers now) s (pings now) g)

  -- Whatever a request holds and whenever it comes, over a safe and timed logic and safe pingers, it is answered, refused
  -- or dropped with no panic: the invariant of the storage is kept, and the task that is started, if one is,
  -- has hashes of four bytes or more.
  pub serve-Served : (s : S) → Good s → Served Good (serve p f r now s)
  unfolding serve
  serve-Served s g = routed-Served (Map.get Bytes-discrete r.path f.routing) s g
