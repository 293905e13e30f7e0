-- ===== src/Middleware/Logic.antt =====
-- middleware/logic.go: the chains of hooks before and after a response. A hook may change the storage too.
use mochi.Base.{List, [], ◌∷◌, ◌++◌}
use mochi.Result.{Result, ok, err, panic, Act}
use mochi.Base.Int.{ℤ}
use mochi.Bittorrent.Request.{AnnounceRequest, AnnounceResponse, ScrapeRequest, ScrapeResponse}
use mochi.Middleware.Storage.{PeerStorage, and_then}
use mochi.Middleware.Response.{Context, respond_announce, respond_scrape}
use mochi.Middleware.Interaction.{interact}

-- Hook: a response is changed in place, so a hook passes it on.
pub record Hook (S : Type 0) : Type 0 where
  pub handle_announce :
      Context → AnnounceRequest → AnnounceResponse → Act S (Context × AnnounceResponse)
  pub handle_scrape : Context → ScrapeRequest → ScrapeResponse → Act S (Context × ScrapeResponse)

module _ {S : Type 0} where
  abbrev pub response_hook : PeerStorage S → Hook S
  response_hook store = record {
    handle_announce = respond_announce store;
    handle_scrape = respond_scrape store;
  }

  abbrev pub swarm_interaction_hook : PeerStorage S → Hook S
  swarm_interaction_hook store = record {
    handle_announce =
        λ ctx req resp s. and_then (interact store ctx req s) λ ctx' s'. (ok (ctx', resp), s');
    handle_scrape = λ ctx req resp s. (ok (ctx, resp), s);
  }

  -- the loops over the hooks
  unfoldable pub announce_hooks :
      List (Hook S)
      → Context
      → AnnounceRequest
      → AnnounceResponse
      → Act S (Context × AnnounceResponse)
  announce_hooks [] ctx req resp s = (ok (ctx, resp), s)
  announce_hooks (h ∷ hs) ctx req resp s =
      and_then (h.handle_announce ctx req resp s)
        λ (ctx', resp') s'. announce_hooks hs ctx' req resp' s'

  unfoldable pub scrape_hooks :
      List (Hook S) → Context → ScrapeRequest → ScrapeResponse → Act S (Context × ScrapeResponse)
  scrape_hooks [] ctx req resp s = (ok (ctx, resp), s)
  scrape_hooks (h ∷ hs) ctx req resp s =
      and_then (h.handle_scrape ctx req resp s)
        λ (ctx', resp') s'. scrape_hooks hs ctx' req resp' s'

-- The intervals are in nanoseconds; nothing checks their signs.
pub record Logic (S : Type 0) : Type 0 where
  pub announce_interval : ℤ
  pub min_announce_interval : ℤ
  pub pre_hooks : List (Hook S)
  pub post_hooks : List (Hook S)

module _ {S : Type 0} where
  unfoldable pub new_logic : ℤ → ℤ → PeerStorage S → List (Hook S) → List (Hook S) → Logic S
  new_logic ann_interval min_ann_interval store pre_hooks post_hooks = record {
    announce_interval = ann_interval;
    min_announce_interval = min_ann_interval;
    pre_hooks = pre_hooks ++ response_hook store ∷ [];
    post_hooks = post_hooks ++ swarm_interaction_hook store ∷ [];
  }

  unfoldable pub handle_announce :
      Logic S → Context → AnnounceRequest → Act S (Context × AnnounceResponse)
  handle_announce l ctx req s =
      announce_hooks l.pre_hooks ctx req
        (record {
          complete = 0;
          incomplete = 0;
          interval = l.announce_interval;
          min_interval = l.min_announce_interval;
          ipv4_peers = [];
          ipv6_peers = [];
        })
        s

  -- An error of a hook is logged, and ends the loop.
  abbrev pub logged : {A : Type 0} → Result A × S → Result (Unit {0}) × S
  logged (ok r, s) = (ok tt, s)
  logged (err e, s) = (ok tt, s)
  logged (panic, s) = (panic, s)

  unfoldable pub after_announce :
      Logic S → Context → AnnounceRequest → AnnounceResponse → Act S (Unit {0})
  after_announce l ctx req resp s = logged (announce_hooks l.post_hooks ctx req resp s)

  unfoldable pub handle_scrape :
      Logic S → Context → ScrapeRequest → Act S (Context × ScrapeResponse)
  handle_scrape l ctx req s = scrape_hooks l.pre_hooks ctx req [] s

  unfoldable pub after_scrape :
      Logic S → Context → ScrapeRequest → ScrapeResponse → Act S (Unit {0})
  after_scrape l ctx req resp s = logged (scrape_hooks l.post_hooks ctx req resp s)

  -- Logic.Ping: the pingers are those of the hooks before a response, the last of which pings the storage.
  unfoldable pub ping : List (Act S (Unit {0})) → Act S (Unit {0})
  ping [] s = (ok tt, s)
  ping (p ∷ pingers) s = and_then (p s) λ u s'. ping pingers s'
