-- ===== src/Frontend/Http/Parser.antt =====
-- frontend/http/parser.go: announces and scrapes out of requests. fasthttp.RequestCtx is not of this
-- repository: the calls of it are the fields of a record. netip.ParseAddr and the address that
-- netip.ParseAddrPort finds are parameters.
use mochi.Base.{
  ◌^◌, Bool, true, false, ◌&&◌, Option, none, some, List, [], ◌∷◌, ◌==◌, ltb, not, if◌then◌else◌,
  length,
}
use mochi.Base.Bytes.{Bytes}
use mochi.Base.Int.{ℤ, to_uint}
use mochi.Base.Map.{Map}
use mochi.Netip.{Addr, no_addr}
use mochi.Result.{Error, client_error, Result, ok, err, ◌>>=◌, codes, err_invalid_port}
use mochi.Bittorrent.Event.{Event, nothing, new_event}
use mochi.Bittorrent.Peer.{new_peer_id}
use mochi.Bittorrent.Hash.{InfoHash}
use mochi.Bittorrent.Request.{RequestAddress, RequestAddresses, AnnounceRequest, ScrapeRequest, add}
use mochi.Bittorrent.Sanitize.{sanitize_announce, sanitize_scrape}
use mochi.Frontend.Options
use mochi.Frontend.Udp.Parser.{or_err}
use mochi.Base.Text.{split, trim_space}
use mochi.Frontend.Http.Params.{Args, ArgError, no_arg_value, bad_value, get_string, info_hashes}

pub record ParseOptions : Type 0 where
  pub options : Options.ParseOptions
  pub real_ip_header : Bytes

-- `canceled` tells whether Err gives an error when the response is ready.
pub record RequestCtx : Type 0 where
  pub path : Bytes
  pub query_args : Args
  pub peek_all : Bytes → List Bytes
  pub remote_addr : Bytes
  pub canceled : Bool

abbrev pub err_no_info_hash : Error
err_no_info_hash = client_error "no info hash supplied"

abbrev pub err_multiple_info_hashes : Error
err_multiple_info_hashes = client_error "multiple info hashes supplied"

abbrev pub err_invalid_peer_id : Error
err_invalid_peer_id = client_error "peer ID invalid or not provided"

abbrev pub err_invalid_parameter_left : Error
err_invalid_parameter_left = client_error "parameter 'left' invalid or not provided"

abbrev pub err_invalid_parameter_downloaded : Error
err_invalid_parameter_downloaded = client_error "parameter 'downloaded' invalid or not provided"

abbrev pub err_invalid_parameter_uploaded : Error
err_invalid_parameter_uploaded = client_error "parameter 'uploaded' invalid or not provided"

abbrev pub err_invalid_parameter_num_want : Error
err_invalid_parameter_num_want = client_error "parameter 'num want' invalid or not provided"

-- the event, if there is one; otherwise None
unfoldable pub event_of : Option Bytes → Result Event
event_of none = ok nothing
event_of (some event_str) = new_event event_str

abbrev pub is_provided : Option Bytes → Bool
is_provided none = false
is_provided (some v) = true

-- the tests on the number of hashes
unfoldable pub only_hash : List InfoHash → Result InfoHash
only_hash [] = err err_no_info_hash
only_hash (ih ∷ []) = ok ih
only_hash (ih ∷ jh ∷ ihs) = err err_multiple_info_hashes

-- the bytes of a value, where nil is empty
abbrev pub value_of : Option Bytes → Bytes
value_of none = []
value_of (some v) = v

-- `if err != nil { return nil, e }` behind GetUint
unfoldable pub uint_or : Error → ℤ × Option ArgError → Result ℤ
uint_or e (n, none) = ok n
uint_or e (n, some x) = err e

-- the same for numwant, which may be left out: whether it is provided, and the number
unfoldable pub wanted_of : ℤ × Option ArgError → Result (Bool × ℤ)
wanted_of (n, none) = ok (true, n)
wanted_of (n, some no_arg_value) = ok (false, n)
wanted_of (n, some bad_value) = err err_invalid_parameter_num_want

module _ (parse_addr : Bytes → Option Addr) where
  unfoldable pub parse_request_address : Bytes → Bool → RequestAddress
  parse_request_address s provided = elim (parse_addr s) [
    | none ↦ (no_addr, false)
    | some a ↦ (a, provided)
  ]

  -- the body of the loop over the fields "ip", "ipv4" and "ipv6"
  unfoldable pub add_spoofed : RequestAddresses → Option Bytes → RequestAddresses
  add_spoofed aa none = aa
  add_spoofed aa (some ip_str) = add aa (parse_request_address ip_str true)

  -- the inner loop over the parts of a header's value, and the outer one over its values
  unfoldable pub add_parts : RequestAddresses → List Bytes → RequestAddresses
  add_parts aa [] = aa
  add_parts aa (part ∷ parts) =
      let ip_str = trim_space part in
      add_parts (if ltb 0 (length ip_str) then add aa (parse_request_address ip_str false) else aa)
        parts

  unfoldable pub add_values : RequestAddresses → List Bytes → RequestAddresses
  add_values aa [] = aa
  add_values aa (v ∷ vs) = add_values (add_parts aa (split b',' v)) vs

  module _ (parse_addr_port : Bytes → Addr) where
    unfoldable pub requested_ips : RequestCtx → Args → ParseOptions → RequestAddresses
    requested_ips r p opts =
        let spoofed =
          if opts.options.allow_ip_spoofing
          then add_spoofed
              (add_spoofed (add_spoofed [] (get_string p (codes "ip")))
                (get_string p (codes "ipv4")))
              (get_string p (codes "ipv6"))
          else [] in
        let ip_values = r.peek_all opts.real_ip_header in
        if ltb 0 (length ip_values) && not (length opts.real_ip_header == 0)
        then add_values spoofed ip_values
        else add spoofed (parse_addr_port r.remote_addr, false)

    module _ (range : Map Addr Bool → Map Addr Bool) where
      unfoldable pub parse_announce : RequestCtx → ParseOptions → Result AnnounceRequest
      parse_announce r opts = do
        let qp = r.query_args
        event ← event_of (get_string qp (codes "event"))
        hashes ← info_hashes qp
        info_hash ← only_hash hashes
        id ← or_err (new_peer_id (value_of (qp.peek (codes "peer_id")))) err_invalid_peer_id
        left ← uint_or err_invalid_parameter_left (qp.get_uint (codes "left"))
        downloaded ← uint_or err_invalid_parameter_downloaded (qp.get_uint (codes "downloaded"))
        uploaded ← uint_or err_invalid_parameter_uploaded (qp.get_uint (codes "uploaded"))
        wanted ← wanted_of (qp.get_uint (codes "numwant"))
        port ← uint_or err_invalid_port (qp.get_uint (codes "port"))
        sanitize_announce range
            (record {
              event = event;
              info_hash = info_hash;
              event_provided = is_provided (get_string qp (codes "event"));
              num_want_provided = wanted.0;
              num_want = to_uint (2 ^ 32) wanted.1;
              left = to_uint (2 ^ 64) left;
              downloaded = to_uint (2 ^ 64) downloaded;
              uploaded = to_uint (2 ^ 64) uploaded;
              peer = record {
                id = id;
                port = to_uint (2 ^ 16) port;
                addresses = requested_ips r qp opts;
              };
              params = get_string qp;
            })
            opts.options.max_num_want opts.options.default_num_want opts.options.filter_private_ips

      -- On an error the source returns the request beside it, which no caller reads.
      unfoldable pub parse_scrape : RequestCtx → ParseOptions → Result ScrapeRequest
      parse_scrape r opts = do
        let qp = r.query_args
        hashes ← info_hashes qp
        if length hashes == 0
            then err err_no_info_hash
            else sanitize_scrape range
                (record {
                  addresses = requested_ips r qp opts;
                  info_hashes = hashes;
                  params = some (get_string qp);
                })
                opts.options.max_scrape_info_hashes opts.options.filter_private_ips
