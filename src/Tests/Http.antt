-- ===== src/Tests/Http.antt =====
-- Runs of the HTTP frontend, alone and beside the UDP frontend, at concrete values.
use mathlib.Core.List.{Perm}
use mochi.Base.{
  ◌≡◌, refl, true, false, none, some, List, [], ◌∷◌, map, arith, replicate, if◌then◌else◌,
}
use mochi.Base.Bytes.{Bytes, bytes_eq, Bytes-discrete, has_prefix, put_uint32}
use mochi.Base.Int.{pos, negsuc, to_uint}
use mochi.Base.Map
use mochi.Netip.{Addr, ip4, ip6}
use mochi.Result.{ok, codes}
use mochi.Bittorrent.Event.{nothing}
use mochi.Bittorrent.Hash.{IsInfoHash}
use mochi.Bittorrent.Request.{AnnounceRequest, AnnounceResponse, ScrapeResponse}
use mochi.Storage.Memory.{PeerStore, new_peer_storage}
use mochi.Middleware.Storage.{memory}
use mochi.Middleware.Logic.{new_logic}
use mochi.Middleware.Safety.{IsOpen}
use mochi.Frontend.Udp.Handle.{Server}
use mochi.Frontend.Udp.Reach.{System, IsServing}
use mochi.Frontend.Udp.Tracker.{memory_server}
use mochi.Base.Text.{trim_space, trim_left, space_len}
use mochi.Frontend.Http.Params
use mochi.Bittorrent.Hash
use mochi.Bittorrent.Peer
use mochi.Bittorrent.Request
use mochi.Netip
use mochi.Bittorrent.Sanitize.{sanitize_announce, limit_num_want}
use mochi.Frontend.Http.Params.{Args, no_arg_value, get_string}
use mochi.Frontend.Http.Parser
use mochi.Frontend.Http.Parser.{RequestCtx, parse_announce}
use mochi.Frontend.Http.Sound.{IsAnnounced, parse_announce-IsAnnounced}
use mochi.Frontend.Http.Decimal.{itoa}
use mochi.Frontend.Http.Writer.{
  write_announce_response, write_scrape_response, sorted, compact_peers,
}
use mochi.Frontend.Http.Bencode.{decode}
use mochi.Frontend.Http.Answers.{announce_value, read_peers, known, write_announce_response-read}
use mochi.Frontend.Http.Scrapes.{response_value, IsAscending, write_scrape_response-read}
use mochi.Frontend.Http.Routes.{
  path_routing, listed, announce_path, other_path, announcing, scraping, pinging, get-path_routing,
}
use mochi.Frontend.Http.Config.{
  Config, LacksTls, IsValid, validate, validate_cases, err_tls_not_provided,
}
use mochi.Frontend.Http.Handle.{HttpFe, Platform, serve, new_frontend, built, tls_error}
use mochi.Frontend.Tracker.{here, next, http, accepted, memory_pingers, memory_tracker-IsServing}
use mochi.Tests.{small, options, generator, mac, visited, visited-IsRange}

trim_space_runs :
    trim_space (0x20 ∷ 0x31 ∷ 0x20 ∷ 0x32 ∷ 0xc2 ∷ 0xa0 ∷ 0x09 ∷ []) ≡ 0x31 ∷ 0x20 ∷ 0x32 ∷ []
unfolding trim_space trim_left space_len has_prefix
trim_space_runs = refl

abbrev platform : Platform
platform = record {
  parse_addr = λ bs. some (ip4 0x05060708);
  parse_addr_port = λ bs. ip4 0x01020304;
  range = visited;
  append_uint = itoa;
  addr_string = λ a. [];
  clean = λ bs. bs;
  load_key_pair = λ cert key. none;
}

-- the query of an announce that leaves out "numwant"
abbrev query : Args
query = record {
  peek = λ key. if bytes_eq key (codes "peer_id") then some (replicate 20 65) else none;
  peek_multi = λ key. replicate 20 7 ∷ [];
  get_uint = λ key.
      if bytes_eq key (codes "numwant") then (negsuc 0, some no_arg_value) else (pos 6881, none);
  get_bool = λ key. true;
}

abbrev announce : RequestCtx
announce = record {
  path = codes "/announce";
  query_args = query;
  peek_all = λ key. [];
  remote_addr = codes "1.2.3.4:6881";
  canceled = false;
}

abbrev parse_options : Parser.ParseOptions
parse_options = record { options = options; real_ip_header = [] }

abbrev request : AnnounceRequest
request = record {
  event = nothing;
  info_hash = replicate 20 7;
  event_provided = false;
  num_want_provided = false;
  num_want = 50;
  left = 6881;
  downloaded = 6881;
  uploaded = 6881;
  peer = record { id = replicate 20 65; port = 6881; addresses = (ip4 0x01020304, false) ∷ [] };
  params = get_string query;
}

parsed :
    parse_announce platform.parse_addr platform.parse_addr_port platform.range announce
      parse_options
    ≡ ok request
unfolding parse_announce get_string bytes_eq Bytes-discrete Parser.event_of Params.info_hashes
    Params.collect_hashes Params.with_hash Hash.new_info_hash Parser.only_hash Peer.new_peer_id
    Parser.uint_or Parser.wanted_of to_uint Parser.requested_ips Request.add Request.is_valid
    sanitize_announce Request.sanitize Request.collect Request.collect_one limit_num_want
    Request.is_accepted Netip.is_unspecified Netip.is_multicast Netip.Addr-discrete Netip.unmap
    Map.get Map.insert
parsed = refl

parse_announce-IsAnnounced_example :
    IsAnnounced platform.parse_addr platform.parse_addr_port announce parse_options request
    × IsInfoHash request.info_hash
parse_announce-IsAnnounced_example =
    parse_announce-IsAnnounced platform.parse_addr platform.parse_addr_port platform.range
      visited-IsRange announce parse_options request parsed

abbrev response : AnnounceResponse
response = record {
  complete = 1;
  incomplete = 0;
  interval = pos 1_800_000_000_000;
  min_interval = pos 900_000_000_000;
  ipv4_peers = record { id = replicate 20 65; ip = ip4 0x01020304; port = 6881 } ∷ [];
  ipv6_peers = [];
}

abbrev peer4 : List Peer.Peer
peer4 = response.ipv4_peers

write_announce_response-read_example :
    (body : Bytes) × (write_announce_response itoa platform.addr_string response true true
      ≡ ok body)
    × (decode 14 body ≡ some (announce_value 1800 900 response, []))
    × (read_peers 4 1 (compact_peers peer4) ≡ some (map known peer4))
    × (read_peers 16 0 (compact_peers []) ≡ some (map known []))
unfolding Netip.unmap Netip.as_slice put_uint32 Peer.addr
write_announce_response-read_example =
    write_announce_response-read itoa (λ n. refl) platform.addr_string response 1_800_000_000_000
      900_000_000_000 true (omega arith) ((refl, omega arith, omega arith), tt) tt

abbrev scraped : ScrapeResponse
scraped =
    record { info_hash = replicate 20 9; snatches = 1; complete = 2; incomplete = 3 }
    ∷ record { info_hash = replicate 20 7; snatches = 4; complete = 5; incomplete = 6 }
    ∷ []

write_scrape_response-read_example :
    (decode 23 (write_scrape_response itoa scraped) ≡ some (response_value (sorted scraped), []))
    × IsAscending (sorted scraped)
    × Perm (sorted scraped) scraped
write_scrape_response-read_example =
    write_scrape_response-read itoa (λ n. refl) scraped 23 (omega arith)

abbrev configured : Config
configured = record {
  listen = record { addr = []; reuse_port = false; workers = 0 };
  read_timeout = negsuc 4;
  write_timeout = pos 0;
  idle_timeout = pos 5;
  enable_keep_alive = false;
  use_tls = false;
  tls_cert_path = [];
  tls_key_path = [];
  announce_routes = [];
  scrape_routes = codes "scrape" ∷ [];
  ping_routes = codes "/ping" ∷ [];
  parse = parse_options;
}

get-path_routing_example :
    Map.get Bytes-discrete (codes "/scrape") (path_routing platform.clean configured) ≡ (
      if listed (codes "/scrape") (map (other_path platform.clean) configured.ping_routes)
      then some pinging
      else if listed (codes "/scrape") (map (other_path platform.clean) configured.scrape_routes)
      then some scraping
      else if listed
          (codes "/scrape")
          (map (announce_path platform.clean) configured.announce_routes)
      then some announcing
      else none)
get-path_routing_example = get-path_routing platform.clean (codes "/scrape") configured

validate_cases_example :
    (LacksTls configured → (validate configured).1 ≡ some err_tls_not_provided)
    × (¬ LacksTls configured
        → ((validate configured).1 ≡ none)
          × IsValid (validate configured).0
          × (validate (validate configured).0 ≡ validate configured))
validate_cases_example = validate_cases configured

abbrev frontend : HttpFe PeerStore
frontend = record {
  logic = λ now. new_logic (pos 1800) (pos 900) (memory (pos now) (λ ks. ks)) [] [];
  pingers = memory_pingers [];
  options = (validate configured).0.parse;
  routing = path_routing platform.clean (validate configured).0;
}

starts :
    new_frontend platform
      (λ now. new_logic (pos 1800) (pos 900) (memory (pos now) (λ ks. ks)) [] [])
      (memory_pingers [])
      configured
    ≡ ok frontend
unfolding new_frontend validate built tls_error
starts = refl

abbrev udp : Server PeerStore
udp = memory_server (λ ks. ks) (pos 1800) (pos 900) [] [] options generator mac (λ bs. bs) visited

abbrev after : System PeerStore
after = accepted (serve platform frontend announce 5 (new_peer_storage (pos 1))) []

memory_tracker-IsServing_example : IsServing IsOpen after
memory_tracker-IsServing_example =
    memory_tracker-IsServing (λ ks. ks) (pos 1800) (pos 900) tt tt [] [] tt tt tt [] tt options
      generator mac (λ bs. bs) visited platform (pos 1) configured frontend after small starts
      (next here (http (new_peer_storage (pos 1)) [] announce 5))
