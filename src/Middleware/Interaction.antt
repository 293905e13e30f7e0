-- ===== src/Middleware/Interaction.antt =====
-- middleware/hooks.go: swarmInteractionHook, which writes the announcing peer to the storage.
use mochi.Base.{ℕ, List, [], ◌∷◌, length, ◌==◌, if◌then◌else◌}
use mochi.Result.{ok, Act}
use mochi.Bittorrent.Event.{Event, stopped, completed}
use mochi.Bittorrent.Peer.{Peer}
use mochi.Bittorrent.Hash.{InfoHash, info_hash_v2_len, truncate_v1}
use mochi.Bittorrent.Request.{AnnounceRequest, peers}
use mochi.Middleware.Storage.{PeerStorage, and_then, or_missing}
use mochi.Middleware.Response.{Context}

module _ {S : Type 0} (store : PeerStorage S) where
  -- `storeFn` of the event and the bytes left
  unfoldable pub store_fn : Event → ℕ → InfoHash → Peer → Act S (Unit {0})
  store_fn stopped left ih p s =
      and_then (or_missing tt (store.delete_seeder ih p s))
        λ u s'. or_missing tt (store.delete_leecher ih p s')
  store_fn completed left ih p s = store.graduate_leecher ih p s
  store_fn _ left ih p s = if left == 0 then store.put_seeder ih p s else store.put_leecher ih p s

  -- one round of the loop: the hash, and the truncation of a hash of version 2
  unfoldable pub interact_peer : Event → ℕ → InfoHash → Peer → Act S (Unit {0})
  interact_peer event left ih p s =
      if length ih == info_hash_v2_len
      then and_then (store_fn event left ih p s) (λ u s'. store_fn event left (truncate_v1 ih) p s')
      else store_fn event left ih p s

  unfoldable pub interact_all : Event → ℕ → InfoHash → List Peer → Act S (Unit {0})
  interact_all event left ih [] s = (ok tt, s)
  interact_all event left ih (p ∷ ps) s =
      and_then (interact_peer event left ih p s) λ u s'. interact_all event left ih ps s'

  -- swarmInteractionHook.HandleAnnounce
  unfoldable pub interact : Context → AnnounceRequest → Act S Context
  interact ctx req s =
      let done =
        and_then (interact_all req.event req.left req.info_hash (peers req.peer) s)
          λ u s'. (ok ctx, s') in
      if ctx.skip_swarm_interaction then (ok ctx, s) else done
