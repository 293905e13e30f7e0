-- ===== src/Frontend/Http/Writer.antt =====
-- frontend/http/writer.go: the responses of the HTTP protocol, as the bytes written to the client. The
-- decimal numbers of fasthttp.AppendUint and the text of netip.Addr.String are parameters.
use mochi.Base.{
  ℕ, ◌+◌, ◌*◌, Bool, true, false, List, [], ◌∷◌, ◌++◌, ◌==◌, ltb, if◌then◌else◌, length,
}
use mochi.Base.Bytes.{Bytes, put_uint16}
use mochi.Netip.{Addr, as_slice}
use mochi.Base.Int.{ℤ, pos, negsuc, quot}
use mochi.Result.{Error, codes, Result, ok, panic, ◌>>=◌}
use mochi.Bittorrent.Peer.{Peer, addr}
use mochi.Bittorrent.Hash.{InfoHash}
use mochi.Bittorrent.Request.{AnnounceResponse, Scrape, ScrapeResponse}
use mochi.Frontend.Udp.Writer.{message, second}
use mochi.Frontend.Http.Decimal.{itoa}

unfoldable pub write_error_response : Error → Bytes
write_error_response e =
    codes "d14:failure reason" ++ (itoa (length (message e)) ++ (b':' ∷ (message e ++ codes "e")))

abbrev pub is_positive : ℤ → Bool
is_positive (pos n) = ltb 0 n
is_positive (negsuc n) = false

-- What writeAnnounceResponse does to the response itself: the second test reads the interval again.
unfoldable pub in_seconds : AnnounceResponse → AnnounceResponse
in_seconds resp =
    let interval = if is_positive resp.interval then quot resp.interval second else resp.interval in
    record resp {
      interval = interval;
      min_interval =
          if is_positive interval then quot resp.min_interval second else resp.min_interval;
    }

-- fasthttp.AppendUint panics on a negative number.
unfoldable pub appendable : ℤ → Result ℕ
appendable (pos n) = ok n
appendable (negsuc n) = panic

-- `<` on strings, byte by byte
unfoldable pub less : InfoHash → InfoHash → Bool
less [] [] = false
less [] (b ∷ bs) = true
less (a ∷ aa) [] = false
less (a ∷ aa) (b ∷ bs) = if a == b then less aa bs else ltb a b

-- sort.Slice, whose order of equal hashes is left open: here they keep theirs.
unfoldable pub insert_scrape : Scrape → List Scrape → List Scrape
insert_scrape s [] = s ∷ []
insert_scrape s (t ∷ ts) =
    let rest = insert_scrape s ts in if less t.info_hash s.info_hash then t ∷ rest else s ∷ t ∷ ts

unfoldable pub sort_scrapes : List Scrape → List Scrape
sort_scrapes [] = []
sort_scrapes (s ∷ ss) = insert_scrape s (sort_scrapes ss)

-- The response as it is after the call, which sorts in place.
unfoldable pub sorted : ScrapeResponse → ScrapeResponse
sorted resp = if ltb 1 (length resp) then sort_scrapes resp else resp

-- the loop over the peers
unfoldable pub compact_peers : List Peer → Bytes
compact_peers [] = []
compact_peers (p ∷ ps) = as_slice (addr p) ++ (put_uint16 p.port ++ compact_peers ps)

module _ (append_uint : ℕ → Bytes) where
  unfoldable pub compact_addresses : List Peer → Bool → Bytes
  compact_addresses peers v6 =
      if ltb 0 (length peers)
      then (if v6 then codes "6:peers6" else codes "5:peers")
        ++ (append_uint (((if v6 then 16 else 4) + 2) * length peers)
            ++ (b':' ∷ compact_peers peers))
      else []

  unfoldable pub write_scrapes : List Scrape → Bytes
  write_scrapes [] = []
  write_scrapes (s ∷ ss) =
      append_uint (length s.info_hash)
      ++ (b':'
          ∷ (s.info_hash
              ++ (codes "d8:completei"
                  ++ (append_uint s.complete
                      ++ (codes "e10:downloadedi"
                          ++ (append_uint s.snatches
                              ++ (codes "e10:incompletei"
                                  ++ (append_uint s.incomplete
                                      ++ (codes "ee" ++ write_scrapes ss)))))))))

  unfoldable pub write_scrape_response : ScrapeResponse → Bytes
  write_scrape_response resp = codes "d5:filesd" ++ (write_scrapes (sorted resp) ++ codes "ee")

  module _ (addr_string : Addr → Bytes) where
    unfoldable pub dict_address : Bool → Peer → Bytes
    dict_address include_peer_id p =
        codes "d2:ip"
        ++ (append_uint (length (addr_string (addr p)))
            ++ (b':'
                ∷ (addr_string (addr p)
                    ++ ((if include_peer_id then codes "7:peer id20:" ++ p.id else [])
                        ++ (codes "4:porti" ++ (put_uint16 p.port ++ codes "ee"))))))

    unfoldable pub dict_addresses : Bool → List Peer → Bytes
    dict_addresses include_peer_id [] = []
    dict_addresses include_peer_id (p ∷ ps) =
        dict_address include_peer_id p ++ dict_addresses include_peer_id ps

    -- the peers, in either form
    unfoldable pub write_peers : Bool → Bool → AnnounceResponse → Bytes
    write_peers true include_peer_id resp =
        compact_addresses resp.ipv4_peers false ++ compact_addresses resp.ipv6_peers true
    write_peers false include_peer_id resp =
        codes "5:peersl"
        ++ (dict_addresses include_peer_id resp.ipv4_peers
            ++ (dict_addresses include_peer_id resp.ipv6_peers ++ codes "e"))

    -- the bytes of a response, with its intervals in seconds
    unfoldable pub response_bytes : ℕ → ℕ → AnnounceResponse → Bool → Bool → Bytes
    response_bytes interval min_interval resp compact include_peer_id =
        codes "d8:completei"
        ++ (append_uint resp.complete
            ++ (codes "e10:incompletei"
                ++ (append_uint resp.incomplete
                    ++ (codes "e8:intervali"
                        ++ (append_uint interval
                            ++ (codes "e12:min intervali"
                                ++ (append_uint min_interval
                                    ++ (codes "e"
                                        ++ (write_peers compact include_peer_id resp
                                            ++ codes "e")))))))))

    unfoldable pub write_announce_response : AnnounceResponse → Bool → Bool → Result Bytes
    write_announce_response resp compact include_peer_id = do
      interval ← appendable (in_seconds resp).interval
      min_interval ← appendable (in_seconds resp).min_interval
      ok (response_bytes interval min_interval (in_seconds resp) compact include_peer_id)
