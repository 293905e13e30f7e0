-- ===== src/Middleware/Remote.antt =====
-- storage/redis/storage.go behind the interface of the hooks.
use mochi.Base.{ℕ, ◌≤◌, ◌≡◌, ◌≢◌, List, [], length}
use mochi.Base.Int.{ℤ}
use mochi.Result.{Gives, Yields, Result, ok, err, panic}
use mochi.Bittorrent.Peer.{Peer}
use mochi.Bittorrent.Request.{AnnounceRequest, AnnounceResponse}
use mochi.Storage.Redis.{Client}
use mochi.Storage.Redis.Write.{
  put_seeder, delete_seeder, put_leecher, delete_leecher, graduate_leecher,
}
use mochi.Storage.Redis.Read.{announce_peers, scrape_swarm}
use mochi.Storage.Redis.Answers.{IsBounded, get_peers_bounds}
use mochi.Middleware.Storage.{PeerStorage}
use mochi.Middleware.Response.{append_peers}
use mochi.Middleware.Answer.{IsLimited, Answers, append_peers-Answers}

-- The Redis storage at a time.
unfoldable pub remote : {S : Type 0} → Client S → ℤ → PeerStorage S
remote c now = record {
  put_seeder = λ ih p. put_seeder c ih p now;
  delete_seeder = delete_seeder c;
  put_leecher = λ ih p. put_leecher c ih p now;
  delete_leecher = delete_leecher c;
  graduate_leecher = λ ih p. graduate_leecher c ih p now;
  announce_peers = announce_peers c;
  scrape_swarm = scrape_swarm c;
}

module _ {S : Type 0} (c : Client S) (bounded : IsBounded c.hrand_field) (now : ℤ) where
  weaken :
      (n : ℕ) (r : Result (List Peer))
      → Yields (λ ps. (ps ≢ []) × (length ps ≤ n)) r
      → Gives (λ ps. length ps ≤ n) r
  weaken n (ok ps) h = h.1
  weaken n (err e) h = tt
  weaken n panic h = absurd h

  remote-IsLimited : IsLimited (remote c now)
  unfolding remote announce_peers
  remote-IsLimited = record {
    limited = λ ih fs n v6 s h. weaken n _ (get_peers_bounds c.hrand_field bounded ih fs n v6 s);
  }

  -- An announce answered from Redis, whatever is stored there, has distinct peers in the list of their family,
  -- as many as wanted at most or the announcing peer alone, and the intervals that it had, if HRANDFIELD
  -- does not panic, and names as many fields as it is asked for at most or fails.
  pub remote-Answers :
      (req : AnnounceRequest) (resp : AnnounceResponse) (s s' : S) (resp' : AnnounceResponse)
      → append_peers (remote c now) req resp s ≡ (ok resp', s')
      → Answers req resp resp'
  remote-Answers req resp s s' resp' e =
      append_peers-Answers (remote c now) remote-IsLimited req resp s s' resp' e
