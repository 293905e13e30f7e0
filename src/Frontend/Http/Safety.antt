-- ===== src/Frontend/Http/Safety.antt =====
-- frontend/http/parser.go: no request makes the parsers panic, and the hashes of the requests are long
-- enough to choose a shard.
use mochi.Base.{◌≡◌, ◌≢◌, refl, Bool, Option, none, some, List, [], ◌∷◌, arith, length, ◌==◌, All}
use mochi.Base.Bytes.{Bytes}
use mochi.Base.Int.{ℤ}
use mochi.Base.Map.{Map}
use mochi.Netip.{Addr}
use mochi.Result.{Error, Result, ok, err, panic, Ensures, >>=-Ensures, if-Ensures, err-Ensures}
use mochi.Bittorrent.Peer.{new_peer_id}
use mochi.Bittorrent.Event.{new_event}
use mochi.Bittorrent.Hash.{InfoHash, IsInfoHash, new_info_hash}
use mochi.Middleware.Safety.{HasHashes}
use mochi.Frontend.Udp.Parser.{or_err}
use mochi.Frontend.Udp.Safety.{
  >>=-ne-panic, or_err-ne-panic, guard-ne-panic, new_info_hash-ne-panic, new_peer_id-ne-panic,
  sanitize_announce-ne-panic, sanitize_scrape-ne-panic,
}
use mochi.Frontend.Udp.Hashes.{IsLong, sanitize_announce-hash, sanitize_scrape-hashes}
use mochi.Frontend.Http.Params.{
  Args, ArgError, no_arg_value, bad_value, with_hash, collect_hashes, info_hashes,
}
use mochi.Frontend.Http.Parser.{
  ParseOptions, RequestCtx, event_of, only_hash, uint_or, wanted_of, parse_announce, parse_scrape,
  err_no_info_hash,
}
use mochi.Frontend.Http.Sound.{info_hashes-IsInfoHash}

event_of-ne-panic : (v : Option Bytes) → event_of v ≢ panic
unfolding event_of new_event
event_of-ne-panic none = λ p. cc
event_of-ne-panic (some s) = ground arith

with_hash-ne-panic :
    (m : Result InfoHash) (ihs : List InfoHash) → m ≢ panic → with_hash m ihs ≢ panic
unfolding with_hash
with_hash-ne-panic (ok ih) ihs h = λ p. cc
with_hash-ne-panic (err e) ihs h = λ p. cc
with_hash-ne-panic panic ihs h = absurd (h refl)

collect_hashes-ne-panic : (bbs : List Bytes) (ihs : List InfoHash) → collect_hashes bbs ihs ≢ panic
unfolding collect_hashes
collect_hashes-ne-panic [] ihs = λ p. cc
collect_hashes-ne-panic (bb ∷ bbs) ihs =
    >>=-ne-panic (with_hash (new_info_hash bb) ihs) _
      (with_hash-ne-panic (new_info_hash bb) ihs (new_info_hash-ne-panic bb))
      λ found. collect_hashes-ne-panic bbs found

info_hashes-ne-panic : (qp : Args) → info_hashes qp ≢ panic
unfolding info_hashes
info_hashes-ne-panic qp = collect_hashes-ne-panic _ []

only_hash-ne-panic : (ihs : List InfoHash) → only_hash ihs ≢ panic
unfolding only_hash
only_hash-ne-panic [] = λ p. cc
only_hash-ne-panic (ih ∷ []) = λ p. cc
only_hash-ne-panic (ih ∷ jh ∷ ihs) = λ p. cc

uint_or-ne-panic : (e : Error) (x : ℤ × Option ArgError) → uint_or e x ≢ panic
unfolding uint_or
uint_or-ne-panic e (n, none) = λ p. cc
uint_or-ne-panic e (n, some x) = λ p. cc

wanted_of-ne-panic : (x : ℤ × Option ArgError) → wanted_of x ≢ panic
unfolding wanted_of
wanted_of-ne-panic (n, none) = λ p. cc
wanted_of-ne-panic (n, some no_arg_value) = λ p. cc
wanted_of-ne-panic (n, some bad_value) = λ p. cc

IsInfoHash-IsLong : (ih : InfoHash) → IsInfoHash ih → IsLong ih
IsInfoHash-IsLong ih h = ground arith

All-IsLong : (ihs : List InfoHash) → All IsInfoHash ihs → All IsLong ihs
All-IsLong [] h = tt
All-IsLong (ih ∷ ihs) h = (IsInfoHash-IsLong ih h.0, All-IsLong ihs h.1)

only_hash-IsLong :
    (ihs : List InfoHash) (ih : InfoHash) → All IsLong ihs → only_hash ihs ≡ ok ih → IsLong ih
unfolding only_hash
only_hash-IsLong [] ih h e = absurd (cc)
only_hash-IsLong (jh ∷ []) ih h e = let q : jh ≡ ih = cc in rw (← q) h.0
only_hash-IsLong (jh ∷ kh ∷ ihs) ih h e = absurd (cc)

module _ (parse_addr : Bytes → Option Addr) (parse_addr_port : Bytes → Addr)
    (range : Map Addr Bool → Map Addr Bool) (r : RequestCtx) (opts : ParseOptions) where
  pub parse_announce-ne-panic : parse_announce parse_addr parse_addr_port range r opts ≢ panic
  unfolding parse_announce
  parse_announce-ne-panic = >>=-ne-panic (event_of _) _ (event_of-ne-panic _) λ event.
      >>=-ne-panic (info_hashes r.query_args) _ (info_hashes-ne-panic _) λ hashes.
        >>=-ne-panic (only_hash hashes) _ (only_hash-ne-panic hashes) λ hash.
          >>=-ne-panic (or_err (new_peer_id _) _) _ (or_err-ne-panic _ _ (new_peer_id-ne-panic _))
            λ id. >>=-ne-panic (uint_or _ _) _ (uint_or-ne-panic _ _) λ left.
              >>=-ne-panic (uint_or _ _) _ (uint_or-ne-panic _ _) λ downloaded.
                >>=-ne-panic (uint_or _ _) _ (uint_or-ne-panic _ _) λ uploaded.
                  >>=-ne-panic (wanted_of _) _ (wanted_of-ne-panic _) λ wanted.
                    >>=-ne-panic (uint_or _ _) _ (uint_or-ne-panic _ _) λ port.
                      sanitize_announce-ne-panic (λ bs. bs) range _ opts.options.max_num_want
                        opts.options.default_num_want opts.options.filter_private_ips

  pub parse_scrape-ne-panic : parse_scrape parse_addr parse_addr_port range r opts ≢ panic
  unfolding parse_scrape
  parse_scrape-ne-panic =
      >>=-ne-panic (info_hashes r.query_args) _ (info_hashes-ne-panic _) λ hashes.
        guard-ne-panic (length hashes == 0) err_no_info_hash _ λ e.
          sanitize_scrape-ne-panic (λ bs. bs) range _ opts.options.max_scrape_info_hashes
            opts.options.filter_private_ips

  pub parse_announce-hash :
      Ensures (λ q. IsLong q.info_hash) (parse_announce parse_addr parse_addr_port range r opts)
  unfolding parse_announce
  parse_announce-hash = >>=-Ensures _ (event_of _) _ λ event e1.
      >>=-Ensures _ (info_hashes r.query_args) _ λ hashes e2.
        >>=-Ensures _ (only_hash hashes) _ λ hash e3.
          >>=-Ensures _ (or_err (new_peer_id _) _) _ λ id e4.
            >>=-Ensures _ (uint_or _ _) _ λ left e5. >>=-Ensures _ (uint_or _ _) _ λ downloaded e6.
              >>=-Ensures _ (uint_or _ _) _ λ uploaded e7.
                >>=-Ensures _ (wanted_of _) _ λ wanted e8. >>=-Ensures _ (uint_or _ _) _ λ port e9.
                  sanitize_announce-hash range _ opts.options.max_num_want
                    opts.options.default_num_want opts.options.filter_private_ips
                    (only_hash-IsLong hashes hash
                      (All-IsLong hashes (info_hashes-IsInfoHash r.query_args hashes e2)) e3)

  pub parse_scrape-hashes : Ensures HasHashes (parse_scrape parse_addr parse_addr_port range r opts)
  unfolding parse_scrape
  parse_scrape-hashes = >>=-Ensures _ (info_hashes r.query_args) _ λ hashes e1.
      if-Ensures _ (length hashes == 0) _ _ (err-Ensures _ err_no_info_hash) (
        sanitize_scrape-hashes range _ opts.options.max_scrape_info_hashes
          opts.options.filter_private_ips
          (All-IsLong hashes (info_hashes-IsInfoHash r.query_args hashes e1)))
