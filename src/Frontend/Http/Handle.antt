-- ===== src/Frontend/Http/Handle.antt =====
-- frontend/http/frontend.go: the handlers of the routes. The response of fasthttp is a record, and what `go`
-- starts is a task handed out.
use mochi.Base.{ℕ, Bool, not, ◌||◌, Option, none, some, List, if◌then◌else◌}
use mochi.Base.Bytes.{Bytes, Bytes-discrete}
use mochi.Base.Map
use mochi.Base.Map.{Map}
use mochi.Netip.{Addr}
use mochi.Result.{Error, Result, ok, err, panic, ◌>>=◌, Act, codes}
use mochi.Bittorrent.Request.{AnnounceRequest, AnnounceResponse, ScrapeRequest, ScrapeResponse}
use mochi.Middleware.Response.{Context}
use mochi.Middleware.Logic.{Logic, handle_announce, handle_scrape, ping}
use mochi.Frontend.Udp.Handle.{Task, announced, scraped, is_canceled, err_canceled, background}
use mochi.Frontend.Http.Parser.{ParseOptions, RequestCtx, parse_announce, parse_scrape}
use mochi.Frontend.Http.Config.{Config, validate}
use mochi.Frontend.Http.Routes.{Handler, announcing, scraping, pinging, path_routing}
use mochi.Frontend.Http.Writer.{
  write_error_response, write_announce_response, write_scrape_response, in_seconds, sorted,
}

-- httpFE: the logic and its pingers of a time, since a storage reads the clock, the options and the routes.
pub record HttpFe (S : Type 0) : Type 0 where
  pub logic : ℕ → Logic S
  pub pingers : ℕ → List (Act S (Unit {0}))
  pub options : ParseOptions
  pub routing : Map Bytes Handler

-- The parameters of the parsers, the writer and the routes, and tls.LoadX509KeyPair, which may fail.
pub record Platform : Type 0 where
  pub parse_addr : Bytes → Option Addr
  pub parse_addr_port : Bytes → Addr
  pub range : Map Addr Bool → Map Addr Bool
  pub append_uint : ℕ → Bytes
  pub addr_string : Addr → Bytes
  pub clean : Bytes → Bytes
  pub load_key_pair : Bytes → Bytes → Option Error

-- What a handler leaves: the status, the type and the body of the response, where they are set, the error, and
-- the task started.
pub record Reply : Type 0 where
  pub status : Option ℕ
  pub content_type : Option Bytes
  pub body : Option Bytes
  pub error : Option Error
  pub task : Option Task

abbrev pub plain : Bytes
plain = codes "text/plain; charset=utf-8"

unfoldable pub fails : Error → Option Bytes → Reply
fails e body = record {
  status = none;
  content_type = none;
  body = body;
  error = some e;
  task = none;
}

-- after a hook has failed: nothing is written for a cancelled context
unfoldable pub refuses : Error → Reply
refuses e = fails e (if is_canceled e then none else some (write_error_response e))

-- `if err = reqCtx.Err(); err == nil`, with what is written then
unfoldable pub answers : Bool → Result Bytes → Task → Result Reply
answers canceled written started =
    let answer : Result Reply = do
      body ← written
      ok (record {
        status = none;
        content_type = some plain;
        body = some body;
        error = none;
        task = some started;
      })
    in if canceled then ok (fails err_canceled none) else answer

-- The ping keeps no error.
unfoldable pub with_status : Bool → ℕ → Reply
with_status canceled code = record {
  status = if canceled then none else some code;
  content_type = none;
  body = none;
  error = none;
  task = none;
}

-- ctx.NotFound()
abbrev pub not_found : Reply
not_found = record {
  status = some 404;
  content_type = none;
  body = none;
  error = none;
  task = none;
}

-- The parameters of a request are dropped before its task, whose only reader of them takes that as no value.
abbrev pub without_params : AnnounceRequest → AnnounceRequest
without_params req = record req { params = λ key. none }

module _ {S : Type 0} (p : Platform) (f : HttpFe S) (r : RequestCtx) (now : ℕ) where
  unfoldable pub announce_outcome :
      AnnounceRequest → Result (Context × AnnounceResponse) × S → Result Reply × S
  announce_outcome req (ok (ctx, resp), s) = (
    answers r.canceled
        (write_announce_response p.append_uint p.addr_string resp
          (r.query_args.get_bool (codes "compact"))
          (not (r.query_args.get_bool (codes "no_peer_id"))))
        (announced ctx (without_params req) (in_seconds resp)),
    s,
  )
  announce_outcome req (err e, s) = (ok (refuses e), s)
  announce_outcome req (panic, s) = (panic, s)

  unfoldable pub announce_parsed : Result AnnounceRequest → Act S Reply
  announce_parsed (ok req) s = announce_outcome req (handle_announce (f.logic now) background req s)
  announce_parsed (err e) s = (ok (fails e (some (write_error_response e))), s)
  announce_parsed panic s = (panic, s)

  unfoldable pub announce_route : Act S Reply
  announce_route =
      announce_parsed (parse_announce p.parse_addr p.parse_addr_port p.range r f.options)

  unfoldable pub scrape_outcome :
      ScrapeRequest → Result (Context × ScrapeResponse) × S → Result Reply × S
  scrape_outcome req (ok (ctx, resp), s) = (
    answers r.canceled (ok (write_scrape_response p.append_uint resp))
        (scraped ctx (record req { params = none }) (sorted resp)),
    s,
  )
  scrape_outcome req (err e, s) = (ok (refuses e), s)
  scrape_outcome req (panic, s) = (panic, s)

  unfoldable pub scrape_parsed : Result ScrapeRequest → Act S Reply
  scrape_parsed (ok req) s = scrape_outcome req (handle_scrape (f.logic now) background req s)
  scrape_parsed (err e) s = (ok (fails e (some (write_error_response e))), s)
  scrape_parsed panic s = (panic, s)

  unfoldable pub scrape_route : Act S Reply
  scrape_route = scrape_parsed (parse_scrape p.parse_addr p.parse_addr_port p.range r f.options)

  unfoldable pub ping_outcome : Result (Unit {0}) × S → Result Reply × S
  ping_outcome (ok u, s) = (ok (with_status r.canceled 200), s)
  ping_outcome (err e, s) = (ok (with_status (is_canceled e || r.canceled) 503), s)
  ping_outcome (panic, s) = (panic, s)

  unfoldable pub ping_route : Act S Reply
  ping_route s = ping_outcome (ping (f.pingers now) s)

  unfoldable pub routed : Option Handler → Act S Reply
  routed none s = (ok not_found, s)
  routed (some announcing) s = announce_route s
  routed (some scraping) s = scrape_route s
  routed (some pinging) s = ping_route s

  -- f.Server.Handler
  unfoldable pub serve : Act S Reply
  serve = routed (Map.get Bytes-discrete r.path f.routing)

-- `if cfg.UseTLS`
unfoldable pub tls_error : Platform → Config → Option Error
tls_error p cfg = if cfg.use_tls then p.load_key_pair cfg.tls_cert_path cfg.tls_key_path else none

unfoldable pub built : {A : Type 0} → Option Error → A → Result A
built none a = ok a
built (some e) a = err e

-- NewFrontend, behind the decoding of the configuration; the server that it starts is a library's.
unfoldable pub new_frontend :
    {S : Type 0}
    → Platform
    → (ℕ → Logic S)
    → (ℕ → List (Act S (Unit {0})))
    → Config
    → Result (HttpFe S)
new_frontend p logic pingers c =
    let (cfg, e) = validate c in
    let fe : HttpFe _ = record {
      logic = logic;
      pingers = pingers;
      options = cfg.parse;
      routing = path_routing p.clean cfg;
    } in
    do cfg' ← built e cfg; built (tls_error p cfg') fe
