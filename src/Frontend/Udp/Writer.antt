-- ===== src/Frontend/Udp/Writer.antt =====
-- frontend/udp/writer.go: the responses of the UDP protocol, as the bytes written to the client.
use mochi.Base.{ℕ, ◌^◌, Bool, List, [], ◌∷◌, ◌++◌, if◌then◌else◌}
use mochi.Base.Bytes.{Bytes, put_uint16, put_uint32}
use mochi.Netip.{as_slice}
use mochi.Result.{Error, client_error, other_error, codes}
use mochi.Base.Int.{to_uint, quot}
use mochi.Bittorrent.Peer.{Peer, addr}
use mochi.Bittorrent.Request.{AnnounceResponse, ScrapeResponse}
use mochi.Frontend.Udp.Parser.{
  connect_action_id, announce_action_id, scrape_action_id, error_action_id, announce_v6_action_id,
}

abbrev pub second : ℕ
second = 1_000_000_000

unfoldable pub write_header : Bytes → ℕ → Bytes
write_header tx_id action = put_uint32 action ++ tx_id

abbrev pub message : Error → Bytes
message (client_error s) = codes s
message (other_error s) = codes "mochi internal error"

unfoldable pub write_error_response : Bytes → Error → Bytes
write_error_response tx_id e = write_header tx_id error_action_id ++ (message e ++ 0 ∷ [])

unfoldable pub write_peers : List Peer → Bytes
write_peers [] = []
write_peers (p ∷ ps) = as_slice (addr p) ++ (put_uint16 p.port ++ write_peers ps)

unfoldable pub write_announce_response : Bytes → AnnounceResponse → Bool → Bool → Bytes
write_announce_response tx_id resp v6_action v6_peers =
    write_header tx_id (if v6_action then announce_v6_action_id else announce_action_id)
    ++ (put_uint32 (to_uint (2 ^ 32) (quot resp.interval second))
        ++ (put_uint32 resp.incomplete
            ++ (put_uint32 resp.complete
                ++ write_peers (if v6_peers then resp.ipv6_peers else resp.ipv4_peers))))

unfoldable pub write_scrapes : ScrapeResponse → Bytes
write_scrapes [] = []
write_scrapes (s ∷ ss) =
    put_uint32 s.complete
    ++ (put_uint32 s.snatches ++ (put_uint32 s.incomplete ++ write_scrapes ss))

unfoldable pub write_scrape_response : Bytes → ScrapeResponse → Bytes
write_scrape_response tx_id resp = write_header tx_id scrape_action_id ++ write_scrapes resp

unfoldable pub write_connection_id : Bytes → Bytes → Bytes
write_connection_id tx_id conn_id = write_header tx_id connect_action_id ++ conn_id
