-- ===== src/Middleware/Response.antt =====
-- middleware/hooks.go: responseHook, which fills a response from the storage.
use mochi.Base.{
  ℕ, ◌+◌, ◌-◌, ◌%◌, ◌^◌, Bool, not, List, [], ◌∷◌, ◌++◌, ◌||◌, ltb, ◌==◌, if◌then◌else◌, length,
  take,
}
use mochi.Base.Map
use mochi.Base.Map.{Map}
use mochi.Netip.{is4, is6}
use mochi.Result.{Result, ok, Act}
use mochi.Bittorrent.Peer.{Peer, Peer-discrete, addr}
use mochi.Bittorrent.Hash.{InfoHash, info_hash_v2_len, truncate_v1}
use mochi.Bittorrent.Request.{
  AnnounceRequest, AnnounceResponse, ScrapeRequest, ScrapeResponse, get_first, peers,
}
use mochi.Middleware.Storage.{PeerStorage, and_then, or_missing}

-- The values of a context that the hooks read: SkipSwarmInteractionKey and SkipResponseHookKey.
pub record Context : Type 0 where
  pub skip_swarm_interaction : Bool
  pub skip_response : Bool

-- The loop over `uniquePeers`: the peers met first, by family. The lists are consed where Go appends in
-- the loop's order; a peer that is of neither family is not marked.
unfoldable pub mark : Peer → Map Peer (Unit {0}) → Map Peer (Unit {0})
mark p unique =
    if is6 (addr p) || is4 (addr p) then Map.insert Peer-discrete p tt unique else unique

unfoldable pub split : Map Peer (Unit {0}) → List Peer → List Peer × List Peer
split unique [] = ([], [])
split unique (p ∷ ps) =
    let found = Map.contains Peer-discrete p unique in
    let (v4, v6) = split (if found then unique else mark p unique) ps in
    if found
    then (v4, v6)
    else if is6 (addr p)
    then (v4, p ∷ v6)
    else if is4 (addr p)
    then (p ∷ v4, v6)
    else (v4, v6)

-- `fetchArgs`, in the order of the calls
unfoldable pub fetch_args : InfoHash → Bool → List (InfoHash × Bool)
fetch_args ih v6_first =
    (ih, v6_first)
    ∷ (ih, not v6_first)
    ∷ (if length ih == info_hash_v2_len
        then (truncate_v1 ih, v6_first) ∷ (truncate_v1 ih, not v6_first) ∷ []
        else [])

-- the peers of the response, before the storage is asked
unfoldable pub preset : Bool → AnnounceResponse → List Peer
preset v6_first resp =
    if v6_first then resp.ipv6_peers ++ resp.ipv4_peers else resp.ipv4_peers ++ resp.ipv6_peers

-- the preset peers that the request wants, and the number that is still wanted
unfoldable pub trim : ℕ → List Peer → List Peer × ℕ
trim max_peers found =
    let l = length found in
    if ltb max_peers l then (take max_peers found, 0) else (found, max_peers - l)

-- what follows the loop: the peer itself where there is no other, and the split by family
unfoldable pub finish : AnnounceRequest → AnnounceResponse → List Peer → AnnounceResponse
finish req resp [] =
    let seeding = req.left == 0 in
    let (v4, v6) = split [] (peers req.peer) in
    record resp {
      complete = if seeding then (resp.complete + 1) % 2 ^ 32 else resp.complete;
      incomplete = if seeding then resp.incomplete else (resp.incomplete + 1) % 2 ^ 32;
      ipv4_peers = v4;
      ipv6_peers = v6;
    }
finish req resp (p ∷ ps) =
    let (v4, v6) = split [] (p ∷ ps) in record resp { ipv4_peers = v4; ipv6_peers = v6 }

module _ {S : Type 0} (store : PeerStorage S) where
  -- The loop over the arguments. A storage that answers with more peers than wanted brings the number
  -- wanted below 0 in Go, which ends the loop as 0 does.
  unfoldable pub fetch : Bool → List (InfoHash × Bool) → List Peer → ℕ → Act S (List Peer)
  fetch seeding [] found max_peers s = (ok found, s)
  fetch seeding ((ih, v6) ∷ args) found max_peers s =
      let next : Result (List Peer) × S =
        and_then (or_missing [] (store.announce_peers ih seeding max_peers v6 s))
          λ ps s'. fetch seeding args (found ++ ps) (max_peers - length ps) s' in
      if max_peers == 0 then (ok found, s) else next

  unfoldable pub append_peers : AnnounceRequest → AnnounceResponse → Act S AnnounceResponse
  append_peers req resp s =
      let v6_first = is6 (get_first req.peer.addresses) in
      let max_peers = req.num_want in
      let found = preset v6_first resp in
      let (first, left) = trim max_peers found in
      and_then (fetch (req.left == 0) (fetch_args req.info_hash v6_first) first left s)
        λ all s'. (ok (finish req resp all), s')

  -- leechers, seeders and snatches of a hash, and of its truncation; the sums are of uint32
  unfoldable pub scrape : InfoHash → Act S (ℕ × ℕ × ℕ)
  scrape ih s = and_then (store.scrape_swarm ih s) λ (leechers, seeders, snatched) s'.
      if length ih == info_hash_v2_len
      then and_then (store.scrape_swarm (truncate_v1 ih) s') (λ (l, se, n) s''.
        (ok ((leechers + l) % 2 ^ 32, (seeders + se) % 2 ^ 32, (snatched + n) % 2 ^ 32), s''))
      else (ok (leechers, seeders, snatched), s')

  -- responseHook.HandleAnnounce. The hook changes the response in place.
  unfoldable pub respond_announce :
      Context → AnnounceRequest → AnnounceResponse → Act S (Context × AnnounceResponse)
  respond_announce ctx req resp s =
      let answered : Result (Context × AnnounceResponse) × S =
        and_then (scrape req.info_hash s) λ (incomplete, complete, snatches) s'.
          and_then
            (append_peers req (record resp { incomplete = incomplete; complete = complete }) s')
            λ resp' s''. (ok (ctx, resp'), s'') in
      if ctx.skip_response then (ok (ctx, resp), s) else answered

  -- the loop of responseHook.HandleScrape
  unfoldable pub scrape_all : List InfoHash → ScrapeResponse → Act S ScrapeResponse
  scrape_all [] scrapes s = (ok scrapes, s)
  scrape_all (ih ∷ ihs) scrapes s = and_then (scrape ih s) λ (leechers, seeders, snatched) s'.
      scrape_all ihs
        (scrapes
          ++ record {
            info_hash = ih;
            snatches = snatched;
            complete = seeders;
            incomplete = leechers;
          }
            ∷ [])
        s'

  unfoldable pub respond_scrape :
      Context → ScrapeRequest → ScrapeResponse → Act S (Context × ScrapeResponse)
  respond_scrape ctx req resp s =
      let answered : Result (Context × ScrapeResponse) × S =
        and_then (scrape_all req.info_hashes resp s) λ resp' s'. (ok (ctx, resp'), s') in
      if ctx.skip_response then (ok (ctx, resp), s) else answered
