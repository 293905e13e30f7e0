-- ===== src/Bittorrent/Sanitize.antt =====
-- bittorrent/sanitize.go: the checks that every parsed request passes.
use mochi.Base.{
  ℕ, ◌≤◌, ◌≡◌, ◌≢◌, Bool, true, false, subst, [], arith, ◌==◌, ltb, not, if◌then◌else◌, length,
  take, take_of_length-le,
}
use mochi.Base.Map.{Map}
use mochi.Netip.{Addr}
use mochi.Result.{Result, ok, err, err_invalid_ip, err_invalid_port}
use mochi.Bittorrent.Request.{AnnounceRequest, ScrapeRequest, sanitize}
use mochi.Bittorrent.Request.Addresses.{IsRange, IsSanitized, sanitize-IsSanitized}

-- The last part of SanitizeAnnounce: the default and the maximum of NumWant.
unfoldable pub limit_num_want : ℕ → ℕ → AnnounceRequest → ℕ
limit_num_want max_num_want default_num_want r =
    if not r.num_want_provided
    then default_num_want
    else if ltb max_num_want r.num_want
    then max_num_want
    else r.num_want

-- `range` is the order in which Go visits a map (see `sanitize`). The request is changed in place:
-- the new request is the result.
unfoldable pub sanitize_announce :
    (Map Addr Bool → Map Addr Bool) → AnnounceRequest → ℕ → ℕ → Bool → Result AnnounceRequest
sanitize_announce range r max_num_want default_num_want filter_private =
    if r.peer.port == 0
    then err err_invalid_port
    else let (addresses, found) = sanitize range r.peer.addresses filter_private in
      if not found
      then err err_invalid_ip
      else ok (record r {
        peer = record r.peer { addresses = addresses };
        num_want = limit_num_want max_num_want default_num_want r;
      })

unfoldable pub sanitize_scrape :
    (Map Addr Bool → Map Addr Bool) → ScrapeRequest → ℕ → Bool → Result ScrapeRequest
sanitize_scrape range r max_scrape_info_hashes filter_private =
    let info_hashes =
      if ltb max_scrape_info_hashes (length r.info_hashes)
      then take max_scrape_info_hashes r.info_hashes
      else r.info_hashes in
    let (addresses, found) = sanitize range r.addresses filter_private in
    if not found
    then err err_invalid_ip
    else ok (record r { info_hashes = info_hashes; addresses = addresses })

-- What holds of an announce that passed the checks: the port is not 0, there is an address, the
-- addresses are those that `sanitize` keeps, and the number of peers wanted is the default if none was
-- named, and else the named one, capped.
pub record IsSound (r r' : AnnounceRequest) (max default : ℕ) (filter_private : Bool) : Type 0 where
  pub port : r'.peer.port ≢ 0
  pub found : r'.peer.addresses ≢ []
  pub addresses : IsSanitized filter_private r.peer.addresses (r'.peer.addresses, true)
  pub wanted : r.num_want_provided ≡ true → (r'.num_want ≤ max) × (r'.num_want ≤ r.num_want)
  pub defaulted : r.num_want_provided ≡ false → r'.num_want ≡ default

module _ (range : Map Addr Bool → Map Addr Bool) (visits : IsRange range) where
  -- An announce that passes the checks is sound: its port is not 0, its addresses are the distinct
  -- accepted ones of the request, of which there is one at least, and the number of peers it wants is the
  -- default if it named none, and otherwise at most the maximum and at most what it named.
  pub sanitize_announce-IsSound :
      (r r' : AnnounceRequest) (max default : ℕ) (fp : Bool)
      → sanitize_announce range r max default fp ≡ ok r'
      → IsSound r r' max default fp
  unfolding sanitize_announce limit_num_want
  sanitize_announce-IsSound r r' max default fp h = record {
    port = ground arith;
    found = ground (arith, s.answer);
    addresses =
        let e : sanitize range r.peer.addresses fp ≡ (r'.peer.addresses, true) = ground arith in
        subst (IsSanitized fp r.peer.addresses) e s;
    wanted = ground arith;
    defaulted = ground arith;
  }
    where
      s : IsSanitized fp r.peer.addresses (sanitize range r.peer.addresses fp)
      s = sanitize-IsSanitized range visits fp r.peer.addresses

  -- A scrape that passes the checks asks for the first hashes of the request, as many as the maximum
  -- allows and in their order, and its addresses are the distinct accepted ones, of which there is one
  -- at least.
  pub sanitize_scrape-prefix :
      (r r' : ScrapeRequest) (max : ℕ) (fp : Bool)
      → sanitize_scrape range r max fp ≡ ok r'
      → (r'.info_hashes ≡ take max r.info_hashes)
        × (r'.addresses ≢ [])
        × IsSanitized fp r.addresses (r'.addresses, true)
  unfolding sanitize_scrape
  sanitize_scrape-prefix r r' max fp h = (
    ground (arith, take_of_length-le max r.info_hashes),
    ground (arith, s.answer),
    let e : sanitize range r.addresses fp ≡ (r'.addresses, true) = ground arith in
        subst (IsSanitized fp r.addresses) e s,
  )
    where
      s : IsSanitized fp r.addresses (sanitize range r.addresses fp)
      s = sanitize-IsSanitized range visits fp r.addresses
