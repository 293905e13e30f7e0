-- ===== src/Frontend/Udp/Parser.antt =====
-- frontend/udp/parser.go: announces and scrapes out of packets. A slice or an index out of range
-- panics.
use mochi.Base.{
  ℕ, zero, suc, ◌+◌, ◌-◌, ◌%◌, Bool, true, false, ◌&&◌, Option, none, some, List, [], ◌∷◌, ◌++◌,
  ◌==◌, ltb, leb, if◌then◌else◌, length, get_elem?, take, drop,
}
use mochi.Base.Bytes.{Bytes, uint_be}
use mochi.Base.Map.{Map}
use mochi.Netip.{Addr, addr_from_slice}
use mochi.Result.{Error, client_error, Result, ok, err, panic, ◌>>=◌, err_unknown_event}
use mochi.Bittorrent.Event.{Event, nothing, started, stopped, completed}
use mochi.Bittorrent.Peer.{new_peer_id}
use mochi.Bittorrent.Hash.{InfoHash, new_info_hash, info_hash_v1_len}
use mochi.Bittorrent.Request.{RequestAddresses, Params, AnnounceRequest, ScrapeRequest, add}
use mochi.Bittorrent.Sanitize.{sanitize_announce, sanitize_scrape}
use mochi.Frontend.Options.{ParseOptions}
use mochi.Frontend.Udp.Params.{parse_query, get_string}

abbrev pub connect_action_id : ℕ
connect_action_id = 0

abbrev pub announce_action_id : ℕ
announce_action_id = 1

abbrev pub scrape_action_id : ℕ
scrape_action_id = 2

abbrev pub error_action_id : ℕ
error_action_id = 3

abbrev pub announce_v6_action_id : ℕ
announce_v6_action_id = 4

abbrev pub option_end_of_options : ℕ
option_end_of_options = 0

abbrev pub option_nop : ℕ
option_nop = 1

abbrev pub option_url_data : ℕ
option_url_data = 2

abbrev pub initial_connection_id : Bytes
initial_connection_id = 0 ∷ 0 ∷ 0x04 ∷ 0x17 ∷ 0x27 ∷ 0x10 ∷ 0x19 ∷ 0x80 ∷ []

abbrev pub event_ids : List Event
event_ids = nothing ∷ completed ∷ started ∷ stopped ∷ []

abbrev pub err_malformed_packet : Error
err_malformed_packet = client_error "malformed packet"

abbrev pub err_unknown_action : Error
err_unknown_action = client_error "unknown action ID"

abbrev pub err_bad_connection_id : Error
err_bad_connection_id = client_error "bad connection ID"

abbrev pub err_unknown_option_type : Error
err_unknown_option_type = client_error "unknown option type"

abbrev pub err_invalid_info_hash : Error
err_invalid_info_hash = client_error "invalid info hash"

-- The text is that of the source.
abbrev pub err_invalid_peer_id : Error
err_invalid_peer_id = client_error "invalid info hash"

pub record Request : Type 0 where
  pub packet : Bytes
  pub ip : Addr

-- `packet[lo:hi]`
unfoldable pub slice : ℕ → ℕ → Bytes → Result Bytes
slice lo hi packet =
    if leb lo hi && leb hi (length packet) then ok (take (hi - lo) (drop lo packet)) else panic

-- `packet[i]`
unfoldable pub index : Bytes → ℕ → Result ℕ
index packet i = elim (get_elem? packet i) [ none ↦ panic | some b ↦ ok b ]

-- `if err != nil { return nil, e }`
abbrev pub or_err {ℓ} : {A : Type ℓ} → Result A → Error → Result A
or_err (ok a) e = ok a
or_err (err e') e = err e
or_err panic e = panic

-- the case of optionURLData: where the next option stands, and the buffer behind this one.
-- bytes.Buffer.Write never fails.
unfoldable pub url_data : Bytes → ℕ → Bytes → Result (Option (ℕ × Bytes))
url_data packet i buf =
    let written : ℕ → Result (Option (ℕ × Bytes)) =
      λ len. do bytes ← slice (i + 2) (i + 2 + len) packet; ok (some (i + 2 + len, buf ++ bytes))
    in let read : Result (Option (ℕ × Bytes)) = do
      len ← index packet (i + 1)
      if ltb (length packet) (i + 2 + len) then err err_malformed_packet else written len
      in if leb (length packet) (i + 1) then err err_malformed_packet else read

-- The body of the loop over the options, at the byte `i`; none where the options end.
unfoldable pub option_at : Bytes → ℕ → Bytes → Result (Option (ℕ × Bytes))
option_at packet i buf = do
  option ← index packet i
  if option == option_end_of_options
      then ok none
      else if option == option_nop
      then ok (some (i + 1, buf))
      else if option == option_url_data
      then url_data packet i buf
      else err err_unknown_option_type

abbrev pub options_behind :
    Result (Option (ℕ × Bytes)) → Bytes → (ℕ → Bytes → Result Bytes) → Result Bytes
options_behind (ok none) buf next = ok buf
options_behind (ok (some (i, buf'))) buf next = next i buf'
options_behind (err e) buf next = err e
options_behind panic buf next = panic

-- The loop over the options, on fuel. Each round goes on by a byte at least.
unfoldable pub parse_options : ℕ → Bytes → ℕ → Bytes → Result Bytes
parse_options zero packet i buf = panic
parse_options (suc fuel) packet i buf =
    let rest = options_behind (option_at packet i buf) buf (parse_options fuel packet) in
    if ltb i (length packet) then rest else ok buf

-- The address that the packet names, where it may.
abbrev pub spoof : ParseOptions → Bytes → RequestAddresses → RequestAddresses
spoof opts bytes aa =
    if opts.allow_ip_spoofing
    then elim (addr_from_slice bytes) [ none ↦ aa | some spoofed ↦ add aa (spoofed, true) ]
    else aa

-- `eventIDs[eventID]`, behind its range test
unfoldable pub event_of : ℕ → Result Event
event_of event_id = elim (get_elem? event_ids event_id) [
  | none ↦ err err_unknown_event
  | some e ↦ ok e
]

module _ (lower : Bytes → Bytes) where
  unfoldable pub handle_optional_parameters : Bytes → Result Params
  handle_optional_parameters [] = do params ← parse_query lower []; ok (get_string lower params)
  handle_optional_parameters (b ∷ packet) = do
    buf ← parse_options (length (b ∷ packet) + 1) (b ∷ packet) 0 []
    params ← parse_query lower buf
    ok (get_string lower params)

  module _ (range : Map Addr Bool → Map Addr Bool) where
    -- what follows the length test of parseAnnounce; the slices are all in range there
    unfoldable pub announce_body : Request → ParseOptions → ℕ → Result AnnounceRequest
    announce_body r opts ip_end = do
      hash_bytes ← slice 16 36 r.packet
      info_hash ← or_err (new_info_hash hash_bytes) err_invalid_info_hash
      id_bytes ← slice 36 56 r.packet
      id ← or_err (new_peer_id id_bytes) err_invalid_peer_id
      downloaded ← slice 56 64 r.packet
      left ← slice 64 72 r.packet
      uploaded ← slice 72 80 r.packet
      event_id ← index r.packet 83
      event ← event_of event_id
      spoofed ← slice 84 ip_end r.packet
      num_want ← slice (ip_end + 4) (ip_end + 8) r.packet
      port ← slice (ip_end + 8) (ip_end + 10) r.packet
      options ← slice (ip_end + 10) (length r.packet) r.packet
      params ← handle_optional_parameters options
      sanitize_announce range
          (record {
            event = event;
            info_hash = info_hash;
            event_provided = true;
            num_want_provided = true;
            num_want = uint_be num_want;
            left = uint_be left;
            downloaded = uint_be downloaded;
            uploaded = uint_be uploaded;
            peer = record {
              id = id;
              port = uint_be port;
              addresses = spoof opts spoofed (add [] (r.ip, false));
            };
            params = params;
          })
          opts.max_num_want opts.default_num_want opts.filter_private_ips

    unfoldable pub parse_announce : Request → Bool → ParseOptions → Result AnnounceRequest
    parse_announce r v6_action opts =
        let ip_end = if v6_action then 84 + 16 else 84 + 4 in
        if ltb (length r.packet) (ip_end + 10)
        then err err_malformed_packet
        else announce_body r opts ip_end

-- The loop over the hashes of a scrape, on fuel: a round takes twenty bytes.
unfoldable pub parse_hashes : ℕ → Bytes → List InfoHash → Result (List InfoHash)
parse_hashes zero packet info_hashes = panic
parse_hashes (suc fuel) packet info_hashes =
    let next : Result (List InfoHash) = do
      bytes ← slice 0 info_hash_v1_len packet
      ih ← new_info_hash bytes
      parse_hashes fuel (drop info_hash_v1_len packet) (info_hashes ++ ih ∷ [])
    in if ltb (length packet) info_hash_v1_len then ok info_hashes else next

unfoldable pub parse_scrape :
    (Map Addr Bool → Map Addr Bool) → Request → ParseOptions → Result ScrapeRequest
parse_scrape range r opts =
    let packet = drop 16 r.packet in
    let parsed : Result ScrapeRequest = do
      info_hashes ← parse_hashes (length packet + 1) packet []
      sanitize_scrape range
          (record { addresses = (r.ip, false) ∷ []; info_hashes = info_hashes; params = none })
          opts.max_scrape_info_hashes opts.filter_private_ips
    in if ltb (length r.packet) 36
      then err err_malformed_packet
      else if (length packet % info_hash_v1_len) == 0
      then parsed
      else err err_malformed_packet
