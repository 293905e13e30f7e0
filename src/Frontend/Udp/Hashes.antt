-- ===== src/Frontend/Udp/Hashes.antt =====
-- frontend/udp/parser.go: the hashes of the requests that the parsers make.
use mochi.Base.{
  ℕ, zero, suc, ◌+◌, ◌≤◌, ◌≡◌, Bool, false, List, [], ◌∷◌, ◌++◌, arith, length, drop, ltb, ◌==◌,
  ◌%◌, All, All-append, All-take, if◌then◌else◌, none,
}
use mochi.Base.Bytes.{Bytes}
use mochi.Base.Map.{Map}
use mochi.Netip.{Addr}
use mochi.Result.{
  Error, Result, ok, err, panic, Ensures, >>=-Ensures, if-Ensures, ok-Ensures, err-Ensures,
  panic-Ensures,
}
use mochi.Bittorrent.Hash.{InfoHash, new_info_hash, new_info_hash-IsInfoHash, info_hash_v1_len}
use mochi.Bittorrent.Request.{AnnounceRequest, ScrapeRequest}
use mochi.Bittorrent.Sanitize.{sanitize_announce, sanitize_scrape}
use mochi.Frontend.Options.{ParseOptions}
use mochi.Frontend.Udp.Parser.{
  Request, announce_body, parse_announce, parse_hashes, parse_scrape, or_err, slice, index,
  event_of, handle_optional_parameters, err_malformed_packet, err_invalid_info_hash,
  err_invalid_peer_id,
}
use mochi.Bittorrent.Peer.{new_peer_id}

abbrev pub IsLong : InfoHash → Type 0
IsLong ih = 4 ≤ length ih

new_info_hash-IsLong : (bs : Bytes) (ih : InfoHash) → new_info_hash bs ≡ ok ih → IsLong ih
new_info_hash-IsLong bs ih h = ground (arith, new_info_hash-IsInfoHash bs ih h)

or_err_ok : {A : Type 0} (m : Result A) (e : Error) (a : A) → or_err m e ≡ ok a → m ≡ ok a
or_err_ok (ok b) e a h = h
or_err_ok (err e') e a h = absurd (cc)
or_err_ok panic e a h = absurd (cc)

module _ (range : Map Addr Bool → Map Addr Bool) where
  pub sanitize_announce-hash :
      (r : AnnounceRequest) (max default : ℕ) (fp : Bool)
      → IsLong r.info_hash
      → Ensures (λ r'. IsLong r'.info_hash) (sanitize_announce range r max default fp)
  unfolding sanitize_announce
  sanitize_announce-hash r max default fp h = record { holds = λ r' e. ground arith }

  pub sanitize_scrape-hashes :
      (r : ScrapeRequest) (max : ℕ) (fp : Bool)
      → All IsLong r.info_hashes
      → Ensures (λ r'. All IsLong r'.info_hashes) (sanitize_scrape range r max fp)
  unfolding sanitize_scrape
  sanitize_scrape-hashes r max fp h = record {
    holds = λ r' e. ground (arith, All-take IsLong max r.info_hashes);
  }

  module _ (lower : Bytes → Bytes) where
    announce_body-hash :
        (r : Request) (opts : ParseOptions) (n : ℕ)
        → Ensures (λ q. IsLong q.info_hash) (announce_body lower range r opts n)
    unfolding announce_body
    announce_body-hash r opts n = >>=-Ensures _ (slice 16 36 r.packet) _ λ b e1.
        >>=-Ensures _ (or_err (new_info_hash b) err_invalid_info_hash) _ λ ih e2.
          >>=-Ensures _ (slice 36 56 r.packet) _ λ c e3.
            >>=-Ensures _ (or_err (new_peer_id c) err_invalid_peer_id) _ λ id e4.
              >>=-Ensures _ (slice 56 64 r.packet) _ λ d e5.
                >>=-Ensures _ (slice 64 72 r.packet) _ λ l e6.
                  >>=-Ensures _ (slice 72 80 r.packet) _ λ u e7.
                    >>=-Ensures _ (index r.packet 83) _ λ i e8. >>=-Ensures _ (event_of i) _ λ e e9.
                      >>=-Ensures _ (slice 84 n r.packet) _ λ s e10.
                        >>=-Ensures _ (slice (n + 4) (n + 8) r.packet) _ λ w e11.
                          >>=-Ensures _ (slice (n + 8) (n + 10) r.packet) _ λ p e12.
                            >>=-Ensures _ (slice (n + 10) (length r.packet) r.packet) _ λ o e13.
                              >>=-Ensures _ (handle_optional_parameters lower o) _ λ q e14.
                                sanitize_announce-hash _ opts.max_num_want opts.default_num_want
                                  opts.filter_private_ips
                                  (new_info_hash-IsLong b ih
                                    (or_err_ok (new_info_hash b) err_invalid_info_hash ih e2))

    pub parse_announce-hash :
        (r : Request) (v6_action : Bool) (opts : ParseOptions)
        → Ensures (λ q. IsLong q.info_hash) (parse_announce lower range r v6_action opts)
    unfolding parse_announce
    parse_announce-hash r v6_action opts =
        let n : ℕ = if v6_action then 84 + 16 else 84 + 4 in
        if-Ensures _ (ltb (length r.packet) (n + 10)) (err err_malformed_packet)
          (announce_body lower range r opts n) (err-Ensures _ err_malformed_packet)
          (announce_body-hash r opts n)

  parse_hashes-hashes :
      (fuel : ℕ) (packet : Bytes) (hashes : List InfoHash)
      → All IsLong hashes
      → Ensures (All IsLong) (parse_hashes fuel packet hashes)
  unfolding parse_hashes
  parse_hashes-hashes zero packet hashes h = panic-Ensures _
  parse_hashes-hashes (suc fuel) packet hashes h =
      if-Ensures (All IsLong) (ltb (length packet) info_hash_v1_len) (ok hashes) _
        (ok-Ensures _ hashes h)
        (>>=-Ensures _ (slice 0 info_hash_v1_len packet) _ λ b e1.
          >>=-Ensures _ (new_info_hash b) _ λ ih e2.
            parse_hashes-hashes fuel (drop info_hash_v1_len packet) (hashes ++ ih ∷ [])
              (All-append IsLong hashes (ih ∷ []) h (new_info_hash-IsLong b ih e2, tt)))

  pub parse_scrape-hashes :
      (r : Request) (opts : ParseOptions)
      → Ensures (λ q. All IsLong q.info_hashes) (parse_scrape range r opts)
  unfolding parse_scrape
  parse_scrape-hashes r opts =
      let packet = drop 16 r.packet in
      if-Ensures _ (ltb (length r.packet) 36) (err err_malformed_packet) _
        (err-Ensures _ err_malformed_packet)
        (if-Ensures _ ((length packet % info_hash_v1_len) == 0) _ (err err_malformed_packet)
          (>>=-Ensures _ (parse_hashes (length packet + 1) packet []) _ λ hashes e.
            sanitize_scrape-hashes
              (record { addresses = (r.ip, false) ∷ []; info_hashes = hashes; params = none })
              opts.max_scrape_info_hashes opts.filter_private_ips
              ((parse_hashes-hashes (length packet + 1) packet [] tt).holds hashes e))
          (err-Ensures _ err_malformed_packet))
