-- ===== src/Middleware/Timed.antt =====
-- middleware/logic.go: chains of hooks that leave no interval of a response negative.
use mochi.Base.{◌≡◌, refl, subst, Bool, true, false, List, [], ◌∷◌, All, All-append, if◌then◌else◌}
use mochi.Base.Int.{ℤ, IsNatural}
use mochi.Result.{Result, ok, err, panic, Gives, and_then}
use mochi.Bittorrent.Peer.{Peer}
use mochi.Bittorrent.Request.{AnnounceRequest, AnnounceResponse}
use mochi.Middleware.Storage.{PeerStorage}
use mochi.Middleware.Response.{Context, finish, append_peers, scrape, respond_announce}
use mochi.Middleware.Logic.{Hook, Logic, response_hook, announce_hooks, new_logic, handle_announce}
use mochi.Middleware.ClientApproval.{
  ClientApproval, client_approval_hook, approve_announce, err_client_unapproved,
}

-- No interval of the response is negative.
abbrev pub IsTimed : AnnounceResponse → Type 0
IsTimed resp = IsNatural resp.interval × IsNatural resp.min_interval

abbrev pub GivesTimed : {S : Type 0} → Result (Context × AnnounceResponse) × S → Type 0
GivesTimed o = Gives (λ cr. IsTimed cr.1) o.0

-- A hook that makes no interval negative.
pub record IsTimedHook {S : Type 0} (h : Hook S) : Type 0 where
  pub timed :
      (ctx : Context) (req : AnnounceRequest) (resp : AnnounceResponse) (s : S)
      → IsTimed resp
      → GivesTimed (h.handle_announce ctx req resp s)

-- The hooks before a response, and the configured intervals.
pub record IsTimedLogic {S : Type 0} (l : Logic S) : Type 0 where
  pub hooks : All IsTimedHook l.pre_hooks
  pub interval : IsNatural l.announce_interval
  pub min_interval : IsNatural l.min_announce_interval

and_then-Gives :
    {S A B : Type 0} (P : B → Type 0) (o : Result A × S) (f : A → S → Result B × S)
    → ((a : A) (s : S) → o.0 ≡ ok a → Gives P (f a s).0)
    → Gives P (and_then o f).0
and_then-Gives P (ok a, s) f h = h a s refl
and_then-Gives P (err e, s) f h = tt
and_then-Gives P (panic, s) f h = tt

if-Gives :
    {S B : Type 0} (P : B → Type 0) (b : Bool) (o o' : Result B × S)
    → Gives P o.0
    → Gives P o'.0
    → Gives P (if b then o else o').0
if-Gives P true o o' h k = h
if-Gives P false o o' h k = k

finish-IsTimed :
    (req : AnnounceRequest) (resp : AnnounceResponse) (found : List Peer)
    → IsTimed resp
    → IsTimed (finish req resp found)
unfolding finish
finish-IsTimed req resp [] t = t
finish-IsTimed req resp (p ∷ ps) t = t

module _ {S : Type 0} where
  announce_hooks-GivesTimed :
      (hs : List (Hook S)) (ctx : Context) (req : AnnounceRequest) (resp : AnnounceResponse) (s : S)
      → All IsTimedHook hs
      → IsTimed resp
      → GivesTimed (announce_hooks hs ctx req resp s)
  unfolding announce_hooks
  announce_hooks-GivesTimed [] ctx req resp s h t = t
  announce_hooks-GivesTimed (k ∷ hs) ctx req resp s h t =
      and_then-Gives (λ cr. IsTimed cr.1) (k.handle_announce ctx req resp s) _
        λ cr s' e.
          announce_hooks-GivesTimed hs cr.0 req cr.1 s' h.1
            (subst (Gives (λ x. IsTimed x.1)) e (h.0.timed ctx req resp s t))

  pub handle_announce-GivesTimed :
      (l : Logic S) (ctx : Context) (req : AnnounceRequest) (s : S)
      → IsTimedLogic l
      → GivesTimed (handle_announce l ctx req s)
  unfolding handle_announce
  handle_announce-GivesTimed l ctx req s t =
      announce_hooks-GivesTimed l.pre_hooks ctx req _ s t.hooks (t.interval, t.min_interval)

  append_peers-Gives :
      (store : PeerStorage S) (req : AnnounceRequest) (resp : AnnounceResponse) (s : S)
      → IsTimed resp
      → Gives IsTimed (append_peers store req resp s).0
  unfolding append_peers
  append_peers-Gives store req resp s t = go _
    where
      go :
          (o : Result (List Peer) × S)
          → Gives IsTimed
              (and_then {B = AnnounceResponse} o λ found s'. (ok (finish req resp found), s')).0
      go (ok found, s') = finish-IsTimed req resp found t
      go (err e, s') = tt
      go (panic, s') = tt

  with_context :
      (ctx : Context) (o : Result AnnounceResponse × S)
      → Gives IsTimed o.0
      → GivesTimed (and_then o λ resp s. (ok (ctx, resp), s))
  with_context ctx (ok resp, s) t = t
  with_context ctx (err e, s) t = tt
  with_context ctx (panic, s) t = tt

  response_hook-IsTimedHook : (store : PeerStorage S) → IsTimedHook (response_hook store)
  unfolding respond_announce
  response_hook-IsTimedHook store = record {
    timed = λ ctx req resp s t.
        if-Gives (λ cr. IsTimed cr.1) ctx.skip_response (ok (ctx, resp), s) _ t
          (and_then-Gives (λ cr. IsTimed cr.1) (scrape store req.info_hash s) _
            λ counts s' e.
              with_context ctx
                (append_peers store req (record resp { incomplete = counts.0; complete = counts.1 })
                  s')
                (append_peers-Gives store req _ s' t));
  }

  pub client_approval-IsTimedHook :
      (a : ClientApproval) → IsTimedHook {S = S} (client_approval_hook a)
  unfolding approve_announce
  client_approval-IsTimedHook a = record {
    timed = λ ctx req resp s t.
        if-Gives {B = Context × AnnounceResponse} (λ cr. IsTimed cr.1) _
          (err err_client_unapproved, s) (ok (ctx, resp), s) tt t;
  }

  -- The logic leaves no interval negative if the configured intervals are not and the configured hooks make
  -- none so.
  pub new_logic-IsTimedLogic :
      (interval min_interval : ℤ) (store : PeerStorage S) (pre post : List (Hook S))
      → IsNatural interval
      → IsNatural min_interval
      → All IsTimedHook pre
      → IsTimedLogic (new_logic interval min_interval store pre post)
  unfolding new_logic
  new_logic-IsTimedLogic interval min_interval store pre post n m h = record {
    hooks = All-append IsTimedHook pre _ h (response_hook-IsTimedHook store, tt);
    interval = n;
    min_interval = m;
  }
