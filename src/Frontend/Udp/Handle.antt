-- ===== src/Frontend/Udp/Handle.antt =====
-- frontend/udp/frontend.go: handleRequest. The socket is the packet written, the pool of generators is a
-- generator, and what `go` starts is a task handed out. Times are nanoseconds since 1970.
use mochi.Base.{
  ℕ, ◌/◌, Bool, false, ◌||◌, Option, none, some, ◌==◌, ltb, if◌then◌else◌, length, take, drop,
  String,
}
use Prim.Native.String.{String}
use text.Mathlib.Text.{◌==◌ as str_eq}
use mochi.Base.Bytes.{Bytes, uint_be, bytes_eq}
use mochi.Base.Map.{Map}
use mochi.Netip.{Addr, is6}
use mochi.Result.{Error, client_error, other_error, Result, ok, err, panic, Act}
use mochi.Bittorrent.Request.{AnnounceRequest, AnnounceResponse, ScrapeRequest, ScrapeResponse}
use mochi.Middleware.Response.{Context}
use mochi.Middleware.Logic.{Logic, handle_announce, handle_scrape, after_announce, after_scrape}
use mochi.Frontend.Options.{ParseOptions}
use mochi.Frontend.Udp.ConnectionId.{ConnectionIdGenerator, generate, validate}
use mochi.Frontend.Udp.Parser.{
  Request, parse_announce, parse_scrape, initial_connection_id, err_malformed_packet,
  err_bad_connection_id, err_unknown_action, connect_action_id, announce_action_id,
  announce_v6_action_id, scrape_action_id,
}
use mochi.Frontend.Udp.Writer.{
  write_error_response, write_connection_id, write_announce_response, write_scrape_response, second,
}

-- udpFE: the logic of a time, since a storage reads the clock. The keyed hash, strings.ToLower and the order
-- of `range` are those of the parsers and of the generator.
pub record Server (S : Type 0) : Type 0 where
  pub logic : ℕ → Logic S
  pub options : ParseOptions
  pub generator : ConnectionIdGenerator
  pub mac : Bytes → Bytes
  pub lower : Bytes → Bytes
  pub range : Map Addr Bool → Map Addr Bool

-- What surrounds a request: the clock, the random number of the generator, and whether the context is
-- cancelled by the time that the response is ready.
pub record Moment : Type 0 where
  pub now : ℕ
  pub random : ℕ
  pub canceled : Bool

-- `go f.logic.AfterAnnounce(…)` and `go f.logic.AfterScrape(…)`
pub data Task : Type 0 where
  announced : Context → AnnounceRequest → AnnounceResponse → Task
  scraped : Context → ScrapeRequest → ScrapeResponse → Task

-- The named results of handleRequest, the packet written and the task started.
pub record Reply : Type 0 where
  pub action_name : String
  pub error : Option Error
  pub written : Option Bytes
  pub task : Option Task

abbrev pub err_canceled : Error
err_canceled = other_error "context canceled"

-- errors.Is(err, context.Canceled)
unfoldable pub is_canceled : Error → Bool
is_canceled (client_error s) = false
is_canceled (other_error s) = str_eq s "context canceled"

-- the context of a request: no hook is skipped
abbrev pub background : Context
background = record { skip_swarm_interaction = false; skip_response = false }

unfoldable pub fails : String → Error → Option Bytes → Reply
fails name e packet = record { action_name = name; error = some e; written = packet; task = none }

-- after a hook has failed: nothing is written for a cancelled context
unfoldable pub refuses : String → Bytes → Error → Reply
refuses name tx_id e =
    fails name e (if is_canceled e then none else some (write_error_response tx_id e))

-- `if err = ctx.Err(); err == nil`
unfoldable pub answers : String → Bool → Bytes → Task → Reply
answers name canceled packet started =
    if canceled
    then fails name err_canceled none
    else record { action_name = name; error = none; written = some packet; task = some started }

module _ {S : Type 0} (f : Server S) (r : Request) (m : Moment) (tx_id : Bytes) where
  unfoldable pub handle_connect : Bytes → Reply
  handle_connect conn_id =
      if bytes_eq conn_id initial_connection_id
      then record {
        action_name = "connect";
        error = none;
        written = some (
            write_connection_id tx_id
              (generate f.mac m.random f.generator r.ip (m.now / second)).0);
        task = none;
      }
      else fails "connect" err_malformed_packet none

  unfoldable pub announce_outcome :
      Bool → AnnounceRequest → Result (Context × AnnounceResponse) × S → Result Reply × S
  announce_outcome v6_action req (ok (ctx, resp), s) = (
    ok (
        answers "announce" m.canceled (write_announce_response tx_id resp v6_action (is6 r.ip))
          (announced ctx req resp)),
    s,
  )
  announce_outcome v6_action req (err e, s) = (ok (refuses "announce" tx_id e), s)
  announce_outcome v6_action req (panic, s) = (panic, s)

  unfoldable pub handle_announce_action : Bool → Result AnnounceRequest → Act S Reply
  handle_announce_action v6_action (ok req) s =
      announce_outcome v6_action req (handle_announce (f.logic m.now) background req s)
  handle_announce_action v6_action (err e) s =
      (ok (fails "announce" e (some (write_error_response tx_id e))), s)
  handle_announce_action v6_action panic s = (panic, s)

  unfoldable pub scrape_outcome :
      ScrapeRequest → Result (Context × ScrapeResponse) × S → Result Reply × S
  scrape_outcome req (ok (ctx, resp), s) = (
    ok (answers "scrape" m.canceled (write_scrape_response tx_id resp) (scraped ctx req resp)),
    s,
  )
  scrape_outcome req (err e, s) = (ok (refuses "scrape" tx_id e), s)
  scrape_outcome req (panic, s) = (panic, s)

  unfoldable pub handle_scrape_action : Result ScrapeRequest → Act S Reply
  handle_scrape_action (ok req) s =
      scrape_outcome req (handle_scrape (f.logic m.now) background req s)
  handle_scrape_action (err e) s = (ok (fails "scrape" e (some (write_error_response tx_id e))), s)
  handle_scrape_action panic s = (panic, s)

  -- the switch over the action
  unfoldable pub dispatch : Bytes → ℕ → Act S Reply
  dispatch conn_id action_id s =
      if action_id == connect_action_id
      then (ok (handle_connect conn_id), s)
      else if action_id == announce_action_id || action_id == announce_v6_action_id
      then handle_announce_action (action_id == announce_v6_action_id)
          (parse_announce f.lower f.range r (action_id == announce_v6_action_id) f.options) s
      else if action_id == scrape_action_id
      then handle_scrape_action (parse_scrape f.range r f.options) s
      else (
        ok (fails "" err_unknown_action (some (write_error_response tx_id err_unknown_action))),
        s,
      )

  -- the test of the connection ID, behind which an action is handled
  unfoldable pub guarded : Result Bool → Bytes → ℕ → Act S Reply
  guarded (ok valid) conn_id action_id s =
      if action_id == connect_action_id || valid then dispatch conn_id action_id s else (
        ok (
            fails "" err_bad_connection_id
              (some (write_error_response tx_id err_bad_connection_id))),
        s,
      )
  guarded (err e) conn_id action_id s = (panic, s)
  guarded panic conn_id action_id s = (panic, s)

-- The slices are in range behind the test of the length, and the connection ID of eight bytes makes
-- `validate` return.
unfoldable pub handle_request : {S : Type 0} → Server S → Request → Moment → Act S Reply
handle_request f r m s =
    let conn_id = take 8 r.packet in
    if ltb (length r.packet) 16
    then (ok (fails "" err_malformed_packet none), s)
    else guarded f r m (take 4 (drop 12 r.packet))
        (validate f.mac f.generator conn_id r.ip (m.now / second)) conn_id
        (uint_be (take 4 (drop 8 r.packet))) s

-- a task, when it runs
unfoldable pub run_task : {S : Type 0} → Server S → ℕ → Task → Act S (Unit {0})
run_task f now (announced ctx req resp) s = after_announce (f.logic now) ctx req resp s
run_task f now (scraped ctx req resp) s = after_scrape (f.logic now) ctx req resp s
