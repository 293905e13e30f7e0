-- ===== src/Frontend/Http/Answers.antt =====
-- frontend/http/writer.go: what a client reads from a response.
use mathlib.Core.List.{append_assoc, append-nil}
use mochi.Base.{
  ℕ, zero, suc, ◌+◌, ◌*◌, ◌/◌, ◌^◌, ◌≤◌, ◌<◌, ◌≡◌, refl, sym, ap, ◌∙◌, Bool, true, false, Option,
  none, some, List, [], ◌∷◌, ◌++◌, map, arith, ltb, lt→ltb, if_true, if◌then◌else◌, length,
  length-append, All, take, drop, take-append_exact, drop-append_exact,
}
use mochi.Base.Bytes.{Bytes, put_uint16, uint_be, uint_be-put_uint16}
use mochi.Netip.{Addr, as_slice, addr_from_slice}
use mochi.Base.Int.{pos, quot}
use mochi.Result.{codes, ok}
use mochi.Bittorrent.Peer.{Peer, addr}
use mochi.Bittorrent.Request.{AnnounceResponse}
use mochi.Storage.Redis.Packing.{without_zone, Fits, addr_from_slice-as_slice}
use mochi.Frontend.Udp.Sizes.{length-put_uint16}
use mochi.Frontend.Http.Decimal.{digits, itoa}
use mochi.Frontend.Http.Writer.{
  in_seconds, appendable, compact_peers, compact_addresses, write_peers, response_bytes,
  write_announce_response,
}
use mochi.Frontend.Http.Bencode.{
  Value, int, str, dict, Fields, no_fields, field, encode, encode_fields, encode_str, decode, size,
  fields_size, decode-encode,
}

-- A list of peers is a field where it is not empty.
abbrev pub with_peers : Bytes → List Peer → Fields → Fields
with_peers key [] rest = rest
with_peers key (p ∷ ps) rest = field key (str (compact_peers (p ∷ ps))) rest

-- What a compact response says.
abbrev pub announce_value : ℕ → ℕ → AnnounceResponse → Value
announce_value interval min_interval resp = dict (
    field (codes "complete") (int resp.complete) (
      field (codes "incomplete") (int resp.incomplete) (
        field (codes "interval") (int interval) (
          field (codes "min interval") (int min_interval) (
            with_peers (codes "peers") resp.ipv4_peers
              (with_peers (codes "peers6") resp.ipv6_peers no_fields))))))

-- the peers that a client reads from the text, `al` bytes for each address
unfoldable pub read_peers : ℕ → ℕ → Bytes → Option (List (Addr × ℕ))
read_peers al zero bs = some []
read_peers al (suc n) bs = elim (addr_from_slice (take al bs)) [
  | none ↦ none
  | some a ↦ elim (read_peers al n (drop (al + 2) bs)) [
    | none ↦ none
    | some rest ↦ some ((a, uint_be (take 2 (drop al bs))) ∷ rest)
  ]
]

abbrev pub known : Peer → Addr × ℕ
known p = (without_zone (addr p), p.port)

-- A peer of one family, whose port and address fit.
abbrev pub IsSent : ℕ → Peer → Type 0
IsSent al p = (length (as_slice (addr p)) ≡ al) × Fits (addr p) × (p.port < 2 ^ 16)

read_one :
    (al n : ℕ) (a port rest : Bytes) (x : Addr) (ys : List (Addr × ℕ))
    → length a ≡ al
    → length port ≡ 2
    → addr_from_slice a ≡ some x
    → read_peers al n rest ≡ some ys
    → read_peers al (suc n) (a ++ (port ++ rest)) ≡ some ((x, uint_be port) ∷ ys)
unfolding read_peers
read_one al n a port rest x ys la lp e h =
    let t : take al (a ++ (port ++ rest)) ≡ a = take-append_exact al a (port ++ rest) (sym la) in
    let d : drop al (a ++ (port ++ rest)) ≡ port ++ rest =
      drop-append_exact al 0 a (port ++ rest) (omega (arith, la)) in
    let d' : drop (al + 2) (a ++ (port ++ rest)) ≡ rest =
      drop-append_exact (al + 2) 2 a (port ++ rest) (omega (arith, la))
      ∙ drop-append_exact 2 0 port rest (omega (arith, lp)) in
    let t' : take 2 (port ++ rest) ≡ port = take-append_exact 2 port rest (sym lp) in
    ground (arith, t, e, d', h, d, t')

read_peers-compact_peers :
    (al : ℕ) (ps : List Peer)
    → All (IsSent al) ps
    → read_peers al (length ps) (compact_peers ps) ≡ some (map known ps)
unfolding read_peers compact_peers
read_peers-compact_peers al [] h = refl
read_peers-compact_peers al (p ∷ ps) h =
    read_one al (length ps) (as_slice (addr p)) (put_uint16 p.port) (compact_peers ps)
      (without_zone (addr p)) (map known ps) h.0.0 (length-put_uint16 p.port)
      (addr_from_slice-as_slice (addr p) h.0.1).0 (read_peers-compact_peers al ps h.1)
    ∙ (rw (uint_be-put_uint16 p.port h.0.2) refl)

length-compact_peers :
    (al : ℕ) (ps : List Peer)
    → All (IsSent al) ps
    → length (compact_peers ps) ≡ (al + 2) * length ps
unfolding compact_peers
length-compact_peers al [] h = omega arith
length-compact_peers al (p ∷ ps) h = grind (
  arith,
  h.0.0,
  length-append (as_slice (addr p)) (put_uint16 p.port ++ compact_peers ps),
  length-append (put_uint16 p.port) (compact_peers ps),
  length-put_uint16 p.port,
  length-compact_peers al ps h.1,
)

with_peers_size :
    (key : Bytes) (ps : List Peer) (rest : Fields)
    → fields_size (with_peers key ps rest) ≤ fields_size rest + 2
unfolding fields_size size
with_peers_size key [] rest = omega arith
with_peers_size key (p ∷ ps) rest = omega arith

announce_value_size : (i m : ℕ) (resp : AnnounceResponse) → size (announce_value i m resp) ≤ 14
unfolding size fields_size
announce_value_size i m resp =
    let inner = with_peers (codes "peers6") resp.ipv6_peers no_fields in
    omega (
      arith,
      with_peers_size (codes "peers") resp.ipv4_peers inner,
      with_peers_size (codes "peers6") resp.ipv6_peers no_fields,
    )

-- a number that is written as a field
pub int_field :
    (key head : Bytes) (n : ℕ) (fs : Fields) (tail : Bytes)
    → encode_str key ≡ head
    → encode_fields (field key (int n) fs) ++ tail
      ≡ head ++ (b'i' ∷ (itoa n ++ (b'e' ∷ (encode_fields fs ++ tail))))
unfolding encode_fields encode
int_field key head n fs tail e =
    rw
      (
        e,
        append_assoc head (b'i' ∷ ((itoa n ++ b'e' ∷ []) ++ encode_fields fs)) tail,
        append_assoc (itoa n) (b'e' ∷ []) (encode_fields fs),
        append_assoc (itoa n) (b'e' ∷ encode_fields fs) tail,
      )
      refl

-- a text that is written with its length
text_written :
    (number key text rest : Bytes)
    → number ≡ itoa (length text)
    → (key ++ (number ++ (b':' ∷ text))) ++ rest ≡ key ++ (encode_str text ++ rest)
unfolding encode_str
text_written number key text rest e =
    rw e (append_assoc key (itoa (length text) ++ (b':' ∷ text)) rest)

module _ (append_uint : ℕ → Bytes) (decimal : (n : ℕ) → append_uint n ≡ itoa n) where
  compact_addresses_cons :
      (p : Peer) (ps : List Peer) (v6 : Bool)
      → compact_addresses append_uint (p ∷ ps) v6
        ≡ (if v6 then codes "6:peers6" else codes "5:peers")
          ++ (append_uint (((if v6 then 16 else 4) + 2) * length (p ∷ ps))
              ++ (b':' ∷ compact_peers (p ∷ ps)))
  unfolding compact_addresses
  compact_addresses_cons p ps v6 = if_true (ltb 0 (length (p ∷ ps))) _ [] (ground arith)

  -- the fields of the peers, as they are written
  compact_addresses4 :
      (ps : List Peer) (rest : Fields)
      → All (IsSent 4) ps
      → compact_addresses append_uint ps false ++ encode_fields rest
        ≡ encode_fields (with_peers (codes "peers") ps rest)
  unfolding compact_addresses encode_fields encode encode_str itoa digits
  compact_addresses4 [] rest k = refl
  compact_addresses4 (p ∷ ps) rest k =
      ap (λ bs. bs ++ encode_fields rest) (compact_addresses_cons p ps false)
      ∙ text_written (append_uint (6 * length (p ∷ ps))) (codes "5:peers") (compact_peers (p ∷ ps))
          (encode_fields rest) (decimal _ ∙ ap itoa (sym (length-compact_peers 4 (p ∷ ps) k)))

  compact_addresses6 :
      (ps : List Peer) (rest : Fields)
      → All (IsSent 16) ps
      → compact_addresses append_uint ps true ++ encode_fields rest
        ≡ encode_fields (with_peers (codes "peers6") ps rest)
  unfolding compact_addresses encode_fields encode encode_str itoa digits
  compact_addresses6 [] rest k = refl
  compact_addresses6 (p ∷ ps) rest k =
      ap (λ bs. bs ++ encode_fields rest) (compact_addresses_cons p ps true)
      ∙ text_written (append_uint (18 * length (p ∷ ps))) (codes "6:peers6")
          (compact_peers (p ∷ ps)) (encode_fields rest)
          (decimal _ ∙ ap itoa (sym (length-compact_peers 16 (p ∷ ps) k)))

  module _ (addr_string : Addr → Bytes) (resp : AnnounceResponse) (include_peer_id : Bool)
      (sent4 : All (IsSent 4) resp.ipv4_peers) (sent6 : All (IsSent 16) resp.ipv6_peers) where
    write_peers-encode :
        write_peers append_uint addr_string true include_peer_id resp
        ≡ encode_fields (
            with_peers
              (codes "peers")
              resp.ipv4_peers
              (with_peers (codes "peers6") resp.ipv6_peers no_fields))
    unfolding write_peers encode_fields
    write_peers-encode =
        ap (λ bs. compact_addresses append_uint resp.ipv4_peers false ++ bs)
          (sym (append-nil _) ∙ compact_addresses6 resp.ipv6_peers no_fields sent6)
        ∙ compact_addresses4 resp.ipv4_peers (with_peers (codes "peers6") resp.ipv6_peers no_fields)
            sent4

    response_bytes-encode :
        (interval min_interval : ℕ)
        → response_bytes append_uint addr_string interval min_interval resp true include_peer_id
          ≡ encode (announce_value interval min_interval resp)
    unfolding response_bytes encode
    response_bytes-encode interval min_interval =
        let tail : Bytes = b'e' ∷ [] in
        let peers =
          with_peers (codes "peers") resp.ipv4_peers
            (with_peers (codes "peers6") resp.ipv6_peers no_fields) in
        let f4 = field (codes "min interval") (int min_interval) peers in
        let f3 = field (codes "interval") (int interval) f4 in
        let f2 = field (codes "incomplete") (int resp.incomplete) f3 in
        rw
          (
            decimal resp.complete,
            decimal resp.incomplete,
            decimal interval,
            decimal min_interval,
            write_peers-encode,
            int_field (codes "complete") (codes "8:complete") resp.complete f2 tail
                (unfold encode_str in unfold itoa in unfold digits in refl),
            int_field (codes "incomplete") (codes "10:incomplete") resp.incomplete f3 tail
                (unfold encode_str in unfold itoa in unfold digits in refl),
            int_field (codes "interval") (codes "8:interval") interval f4 tail
                (unfold encode_str in unfold itoa in unfold digits in refl),
            int_field (codes "min interval") (codes "12:min interval") min_interval peers tail
                (unfold encode_str in unfold itoa in unfold digits in refl),
          )
          refl

    response_bytes-read :
        (interval min_interval : ℕ)
        → decode 14
            (response_bytes append_uint addr_string interval min_interval resp true include_peer_id)
          ≡ some (announce_value interval min_interval resp, [])
    response_bytes-read interval min_interval = rw (response_bytes-encode interval min_interval) (
        rw (← append-nil (encode (announce_value interval min_interval resp))) (
          decode-encode (announce_value interval min_interval resp) 14 []
            (announce_value_size interval min_interval resp)))

  -- For intervals of a second or more and a least interval that is not negative, writeAnnounceResponse writes a
  -- compact response, which a client reads as the dictionary of the counts, of both intervals divided by a
  -- second, and of the peers of each family, whose texts it reads as the addresses and ports of the peers, if
  -- numbers are written in decimal and the peers stand in the lists of their families, with ports of 16 bits
  -- and plain addresses.
  pub write_announce_response-read :
      (addr_string : Addr → Bytes) (resp : AnnounceResponse) (interval min_interval : ℕ)
      (include_peer_id : Bool)
      → 1_000_000_000 ≤ interval
      → All (IsSent 4) resp.ipv4_peers
      → All (IsSent 16) resp.ipv6_peers
      → (body : Bytes) × (write_announce_response append_uint addr_string
            (record resp { interval = pos interval; min_interval = pos min_interval })
            true
            include_peer_id
          ≡ ok body)
        × (decode 14 body
            ≡ some
                (announce_value (interval / 1_000_000_000) (min_interval / 1_000_000_000) resp, []))
        × (read_peers 4 (length resp.ipv4_peers) (compact_peers resp.ipv4_peers)
            ≡ some (map known resp.ipv4_peers))
        × (read_peers 16 (length resp.ipv6_peers) (compact_peers resp.ipv6_peers)
            ≡ some (map known resp.ipv6_peers))
  unfolding write_announce_response in_seconds appendable quot response_bytes write_peers
  write_announce_response-read addr_string resp interval min_interval include_peer_id long sent4
        sent6 =
      let some_time : ltb 0 interval ≡ true = lt→ltb 0 interval (omega (arith, long)) in
      let a_second : ltb 0 (interval / 1_000_000_000) ≡ true =
        lt→ltb 0 (interval / 1_000_000_000) (omega (arith, long)) in
      (
        response_bytes append_uint addr_string (interval / 1_000_000_000)
            (min_interval / 1_000_000_000) resp true include_peer_id,
        rw (some_time, a_second) refl,
        response_bytes-read addr_string resp include_peer_id sent4 sent6 (interval / 1_000_000_000)
            (min_interval / 1_000_000_000),
        read_peers-compact_peers 4 resp.ipv4_peers sent4,
        read_peers-compact_peers 16 resp.ipv6_peers sent6,
      )
