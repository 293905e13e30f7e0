-- ===== src/Frontend/Http/Sound.antt =====
-- frontend/http/parser.go: what the parsers accept, and that no request makes them panic.
use mochi.Base.{
  ℕ, ◌^◌, ◌≤◌, ◌≡◌, ◌≢◌, refl, ap, sym, ◌∙◌, subst, Bool, true, false, Option, none, some, List, [],
  ◌∷◌, ◌++◌, arith, length, All, All-append,
}
use mochi.Base.Bytes.{Bytes}
use mochi.Base.Int.{ℤ, to_uint}
use mochi.Base.Map.{Map}
use mochi.Netip.{Addr}
use mochi.Result.{Error, Result, ok, err, panic, ◌>>=◌, codes, err_invalid_port}
use mochi.Bittorrent.Event.{Event}
use mochi.Bittorrent.Peer.{new_peer_id, peer_id_len}
use mochi.Bittorrent.Hash.{InfoHash, IsInfoHash, new_info_hash, new_info_hash-IsInfoHash}
use mochi.Bittorrent.Request.{AnnounceRequest, ScrapeRequest}
use mochi.Bittorrent.Request.Addresses.{IsRange, IsSanitized}
use mochi.Bittorrent.Sanitize.{sanitize_announce, sanitize_scrape, sanitize_announce-IsSound}
use mochi.Frontend.Udp.Parser.{or_err}
use mochi.Frontend.Http.Params.{
  Args, ArgError, no_arg_value, bad_value, get_string, with_hash, collect_hashes, info_hashes,
}
use mochi.Frontend.Http.Parser.{
  ParseOptions, RequestCtx, event_of, only_hash, value_of, uint_or, wanted_of, is_provided,
  requested_ips, parse_announce, err_invalid_peer_id, err_invalid_parameter_left,
  err_invalid_parameter_downloaded, err_invalid_parameter_uploaded,
}

-- a successful bind, taken apart
bind_parts :
    {A B : Type 0} {f : A → Result B} {b : B} (m : Result A)
    → (m >>= f) ≡ ok b
    → (a : A) × (m ≡ ok a) × (f a ≡ ok b)
bind_parts panic e = absurd (cc)
bind_parts (err x) e = absurd (cc)
bind_parts (ok x) e = (x, refl, e)

-- The argument is read as a number, and `v` is that number in an unsigned integer of modulus `m`.
abbrev pub Reads : RequestCtx → Bytes → ℕ → ℕ → Type 0
Reads r key m v = (z : ℤ) × (r.query_args.get_uint key ≡ (z, none)) × (v ≡ to_uint m z)

-- The number of peers that are wanted: at most the maximum and what is named, or the default.
abbrev pub IsWanted : ℕ → ℕ → ℕ → ℤ × Option ArgError → Type 0
IsWanted max default num_want (n, none) = (num_want ≤ max) × (num_want ≤ to_uint (2 ^ 32) n)
IsWanted max default num_want (n, some no_arg_value) = num_want ≡ default
IsWanted max default num_want (n, some bad_value) = ⊥

with_hash-All :
    (m : Result InfoHash) (ihs ihs' : List InfoHash)
    → All IsInfoHash ihs
    → ((ih : InfoHash) → m ≡ ok ih → IsInfoHash ih)
    → with_hash m ihs ≡ ok ihs'
    → All IsInfoHash ihs'
unfolding with_hash
with_hash-All (ok ih) ihs ihs' h k e =
    let q : ihs ++ ih ∷ [] ≡ ihs' = cc in
    subst (All IsInfoHash) q (All-append IsInfoHash ihs (ih ∷ []) h (k ih refl, tt))
with_hash-All (err x) ihs ihs' h k e = let q : ihs ≡ ihs' = cc in subst (All IsInfoHash) q h
with_hash-All panic ihs ihs' h k e = absurd (cc)

collect_hashes-IsInfoHash :
    (bbs : List Bytes) (ihs ihs' : List InfoHash)
    → All IsInfoHash ihs
    → collect_hashes bbs ihs ≡ ok ihs'
    → All IsInfoHash ihs'
unfolding collect_hashes
collect_hashes-IsInfoHash [] ihs ihs' h e = let q : ihs ≡ ihs' = cc in subst (All IsInfoHash) q h
collect_hashes-IsInfoHash (bb ∷ bbs) ihs ihs' h e =
    let (found, e1, e2) = bind_parts (with_hash (new_info_hash bb) ihs) e in
    collect_hashes-IsInfoHash bbs found ihs'
      (with_hash-All (new_info_hash bb) ihs found h (new_info_hash-IsInfoHash bb) e1) e2

pub info_hashes-IsInfoHash :
    (qp : Args) (ihs : List InfoHash) → info_hashes qp ≡ ok ihs → All IsInfoHash ihs
unfolding info_hashes
info_hashes-IsInfoHash qp ihs h = collect_hashes-IsInfoHash _ [] ihs tt h

only_hash_ok : (ihs : List InfoHash) (ih : InfoHash) → only_hash ihs ≡ ok ih → ihs ≡ ih ∷ []
unfolding only_hash
only_hash_ok [] ih h = absurd (cc)
only_hash_ok (jh ∷ []) ih h = cc
only_hash_ok (jh ∷ kh ∷ ihs) ih h = absurd (cc)

uint_or_ok : (e : Error) (x : ℤ × Option ArgError) (z : ℤ) → uint_or e x ≡ ok z → x ≡ (z, none)
unfolding uint_or
uint_or_ok e (n, none) z h = cc
uint_or_ok e (n, some x) z h = absurd (cc)

peer_id_ok :
    (v : Option Bytes) (e : Error) (id : Bytes)
    → or_err (new_peer_id (value_of v)) e ≡ ok id
    → (v ≡ some id) × (length id ≡ peer_id_len)
unfolding new_peer_id
peer_id_ok none e id h = ground arith
peer_id_ok (some v) e id h = ground arith

sanitize_announce-kept :
    (range : Map Addr Bool → Map Addr Bool) (r r' : AnnounceRequest) (max default : ℕ) (fp : Bool)
    → sanitize_announce range r max default fp ≡ ok r'
    → r'
      ≡ record r { peer = record r.peer { addresses = r'.peer.addresses }; num_want = r'.num_want }
unfolding sanitize_announce
sanitize_announce-kept range r r' max default fp h = ground arith

sanitize_scrape-kept :
    (range : Map Addr Bool → Map Addr Bool) (r r' : ScrapeRequest) (max : ℕ) (fp : Bool)
    → sanitize_scrape range r max fp ≡ ok r'
    → r'.params ≡ r.params
unfolding sanitize_scrape
sanitize_scrape-kept range r r' max fp h = ground arith

wanted_of-IsWanted :
    (x : ℤ × Option ArgError) (w : Bool × ℤ) (max default num_want : ℕ)
    → wanted_of x ≡ ok w
    → (w.0 ≡ true → (num_want ≤ max) × (num_want ≤ to_uint (2 ^ 32) w.1))
    → (w.0 ≡ false → num_want ≡ default)
    → IsWanted max default num_want x
unfolding wanted_of
wanted_of-IsWanted (n, none) w max default num_want h a b =
    let e : (true, n) ≡ w = cc in
    subst (λ (v : Bool × ℤ). (num_want ≤ max) × (num_want ≤ to_uint (2 ^ 32) v.1)) (sym e)
      (a (ap (λ (v : Bool × ℤ). v.0) (sym e)))
wanted_of-IsWanted (n, some no_arg_value) w max default num_want h a b =
    let e : w ≡ (false, n) = cc in b (ap (λ (v : Bool × ℤ). v.0) e)
wanted_of-IsWanted (n, some bad_value) w max default num_want h a b = absurd (cc)

module _ (parse_addr : Bytes → Option Addr) (parse_addr_port : Bytes → Addr) where
  -- What an accepted announce says: the event that is named, the only hash among the values of
  -- "info_hash", a peer identifier of twenty bytes, the numbers that are read, a port that is not 0, and the
  -- sanitized addresses of the request, one at least.
  pub record IsAnnounced (r : RequestCtx) (opts : ParseOptions) (req : AnnounceRequest)
      : Type 0 where
    pub event : event_of (r.query_args.peek (codes "event")) ≡ ok req.event
    pub only : info_hashes r.query_args ≡ ok (req.info_hash ∷ [])
    pub id : r.query_args.peek (codes "peer_id") ≡ some req.peer.id
    pub id_len : length req.peer.id ≡ peer_id_len
    pub left : Reads r (codes "left") (2 ^ 64) req.left
    pub downloaded : Reads r (codes "downloaded") (2 ^ 64) req.downloaded
    pub uploaded : Reads r (codes "uploaded") (2 ^ 64) req.uploaded
    pub port : Reads r (codes "port") (2 ^ 16) req.peer.port
    pub port_set : req.peer.port ≢ 0
    pub wanted :
        IsWanted opts.options.max_num_want opts.options.default_num_want req.num_want
          (r.query_args.get_uint (codes "numwant"))
    pub found : req.peer.addresses ≢ []
    pub addresses :
        IsSanitized opts.options.filter_private_ips
          (requested_ips parse_addr parse_addr_port r r.query_args opts)
          (req.peer.addresses, true)

  module _ (range : Map Addr Bool → Map Addr Bool) (visits : IsRange range) (r : RequestCtx)
      (opts : ParseOptions) (req : AnnounceRequest) where
    -- the request as it is before the checks
    abbrev draft : Event → InfoHash → Bytes → ℤ → ℤ → ℤ → Bool × ℤ → ℤ → AnnounceRequest
    draft event info_hash id left downloaded uploaded wanted port = record {
      event = event;
      info_hash = info_hash;
      event_provided = is_provided (r.query_args.peek (codes "event"));
      num_want_provided = wanted.0;
      num_want = to_uint (2 ^ 32) wanted.1;
      left = to_uint (2 ^ 64) left;
      downloaded = to_uint (2 ^ 64) downloaded;
      uploaded = to_uint (2 ^ 64) uploaded;
      peer = record {
        id = id;
        port = to_uint (2 ^ 16) port;
        addresses = requested_ips parse_addr parse_addr_port r r.query_args opts;
      };
      params = r.query_args.peek;
    }

    checked :
        (event : Event) (hash : InfoHash) (id : Bytes) (left downloaded uploaded : ℤ)
        (wanted : Bool × ℤ) (port : ℤ)
        → event_of (r.query_args.peek (codes "event")) ≡ ok event
        → info_hashes r.query_args ≡ ok (hash ∷ [])
        → (r.query_args.peek (codes "peer_id") ≡ some id) × (length id ≡ peer_id_len)
        → r.query_args.get_uint (codes "left") ≡ (left, none)
        → r.query_args.get_uint (codes "downloaded") ≡ (downloaded, none)
        → r.query_args.get_uint (codes "uploaded") ≡ (uploaded, none)
        → wanted_of (r.query_args.get_uint (codes "numwant")) ≡ ok wanted
        → r.query_args.get_uint (codes "port") ≡ (port, none)
        → sanitize_announce range
            (draft event hash id left downloaded uploaded wanted port)
            opts.options.max_num_want
            opts.options.default_num_want
            opts.options.filter_private_ips
          ≡ ok req
        → IsAnnounced r opts req
    checked event hash id left downloaded uploaded wanted port h1 h2 h3 h4 h5 h6 h7 h8 h =
        let d = draft event hash id left downloaded uploaded wanted port in
        let e = sanitize_announce-kept range d req _ _ _ h in
        let s = sanitize_announce-IsSound range visits d req _ _ _ h in
        record {
          event = rw e h1;
          only = rw e h2;
          id = rw e h3.0;
          id_len = rw e h3.1;
          left = (left, h4, ap (λ q. q.left) e);
          downloaded = (downloaded, h5, ap (λ q. q.downloaded) e);
          uploaded = (uploaded, h6, ap (λ q. q.uploaded) e);
          port = (port, h8, ap (λ q. q.peer.port) e);
          port_set = s.port;
          wanted = wanted_of-IsWanted _ wanted _ _ req.num_want h7 s.wanted s.defaulted;
          found = s.found;
          addresses = s.addresses;
        }

    -- An announce that parseAnnounce passes is one that the request makes: its event is the one that is
    -- named, or none; its hash, of twenty or thirty-two bytes, is the only one among the values of
    -- "info_hash" that are read; its peer identifier is the one given and has twenty bytes; the bytes left,
    -- downloaded and uploaded and the port are the numbers given, to 64 and 16 bits, the port not 0; the
    -- peers wanted are the default if not given, and otherwise at most the maximum and at most what is
    -- given; and its addresses are the sanitized ones of the request, one at least. The order of a map
    -- visits each entry once.
    pub parse_announce-IsAnnounced :
        parse_announce parse_addr parse_addr_port range r opts ≡ ok req
        → IsAnnounced r opts req × IsInfoHash req.info_hash
    unfolding parse_announce get_string
    parse_announce-IsAnnounced h =
        let qp = r.query_args in
        let (event, h1, k1) = bind_parts (event_of (qp.peek (codes "event"))) h in
        let (hashes, h2, k2) = bind_parts (info_hashes qp) k1 in
        let (hash, h3, k3) = bind_parts (only_hash hashes) k2 in
        let (id, h4, k4) =
          bind_parts
            (or_err (new_peer_id (value_of (qp.peek (codes "peer_id")))) err_invalid_peer_id) k3 in
        let (left, h5, k5) =
          bind_parts (uint_or err_invalid_parameter_left (qp.get_uint (codes "left"))) k4 in
        let (downloaded, h6, k6) =
          bind_parts (uint_or err_invalid_parameter_downloaded (qp.get_uint (codes "downloaded")))
            k5 in
        let (uploaded, h7, k7) =
          bind_parts (uint_or err_invalid_parameter_uploaded (qp.get_uint (codes "uploaded"))) k6 in
        let (wanted, h8, k8) = bind_parts (wanted_of (qp.get_uint (codes "numwant"))) k7 in
        let (port, h9, k9) =
          bind_parts (uint_or err_invalid_port (qp.get_uint (codes "port"))) k8 in
        let a =
          checked event hash id left downloaded uploaded wanted port h1
            (h2 ∙ ap ok (only_hash_ok hashes hash h3)) (peer_id_ok _ _ id h4)
            (uint_or_ok _ _ left h5) (uint_or_ok _ _ downloaded h6) (uint_or_ok _ _ uploaded h7) h8
            (uint_or_ok _ _ port h9) k9 in
        (a, (info_hashes-IsInfoHash qp (req.info_hash ∷ []) a.only).0)
