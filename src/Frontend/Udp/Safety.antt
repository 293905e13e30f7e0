-- ===== src/Frontend/Udp/Safety.antt =====
-- frontend/udp/parser.go and params.go: no packet makes the parsers panic, and their loops end.
use native.Mathlib.Nat.{le_refl}
use mochi.Base.{
  ℕ, zero, suc, ◌+◌, ◌-◌, ◌%◌, leb, ◌≤◌, ◌<◌, ◌≡◌, ◌≢◌, refl, Bool, true, false, Option, none, some,
  List, [], ◌∷◌, ◌++◌, arith, ◌==◌, ltb, if◌then◌else◌, length, take, drop, length-drop, Bool-cases,
  inl, inr,
}
use mochi.Base.Bytes.{Bytes}
use mochi.Base.Map.{Map}
use mochi.Netip.{Addr}
use mochi.Result.{Error, Result, ok, err, panic, ◌>>=◌}
use mochi.Bittorrent.Peer.{new_peer_id}
use mochi.Bittorrent.Hash.{
  InfoHash, new_info_hash, hex_decode, hex_pair, hex_value, info_hash_v1_len,
}
use mochi.Bittorrent.Request.{AnnounceRequest, ScrapeRequest}
use mochi.Bittorrent.Sanitize.{sanitize_announce, sanitize_scrape}
use mochi.Frontend.Options.{ParseOptions}
use mochi.Frontend.Udp.Params.{cut, is_delimiter, next_field, put_field, parse_fields, parse_query}
use mochi.Frontend.Udp.Parser.{
  Request, slice, index, or_err, url_data, option_at, options_behind, parse_options,
  option_end_of_options, option_nop, option_url_data, event_of, handle_optional_parameters,
  announce_body, parse_announce, parse_hashes, parse_scrape, err_malformed_packet,
}

-- A bind does not panic if its parts do not.
pub >>=-ne-panic {ℓ κ} :
    {A : Type ℓ} {B : Type κ} (m : Result A) (f : A → Result B)
    → m ≢ panic
    → ((a : A) → f a ≢ panic)
    → (m >>= f) ≢ panic
>>=-ne-panic (ok a) f h k = k a
>>=-ne-panic (err e) f h k = λ p. cc
>>=-ne-panic panic f h k = absurd (h refl)

pub or_err-ne-panic {ℓ} : {A : Type ℓ} (m : Result A) (e : Error) → m ≢ panic → or_err m e ≢ panic
or_err-ne-panic (ok a) e h = λ p. cc
or_err-ne-panic (err e') e h = λ p. cc
or_err-ne-panic panic e h = h

pub guard-ne-panic {ℓ} :
    {A : Type ℓ} (b : Bool) (e : Error) (m : Result A)
    → (b ≡ false → m ≢ panic)
    → (if b then err e else m) ≢ panic
guard-ne-panic true e m h = λ p. cc
guard-ne-panic false e m h = h refl

guard'-ne-panic {ℓ} :
    {A : Type ℓ} (b : Bool) (m : Result A) (e : Error)
    → (b ≡ true → m ≢ panic)
    → (if b then m else err e) ≢ panic
guard'-ne-panic false m e h = λ p. cc
guard'-ne-panic true m e h = h refl

event_of-ne-panic : (i : ℕ) → event_of i ≢ panic
unfolding event_of
event_of-ne-panic i = ground arith

abbrev Shrinks : Bytes → Option (Bytes × Bytes) → Type 0
Shrinks bs none = Unit
Shrinks bs (some (before, behind)) = length behind < length bs

cut-Shrinks : (test : ℕ → Bool) (bs : Bytes) → Shrinks bs (cut test bs)
unfolding cut
cut-Shrinks test [] = tt
cut-Shrinks test (b ∷ bs) = ground (arith, cut-Shrinks test bs)

next_field_shrinks : (b : ℕ) (bs : Bytes) → length (next_field (b ∷ bs)).1 ≤ length bs
unfolding next_field
next_field_shrinks b bs = ground (arith, cut-Shrinks is_delimiter (b ∷ bs))

slice-ne-panic : (lo hi : ℕ) (bs : Bytes) → lo ≤ hi → hi ≤ length bs → slice lo hi bs ≢ panic
unfolding slice
slice-ne-panic lo hi bs h k = ground arith

index-ne-panic : (bs : Bytes) (i : ℕ) → i < length bs → index bs i ≢ panic
unfolding index
index-ne-panic [] i h = elim h [ ]
index-ne-panic (b ∷ bs) zero h = λ p. cc
index-ne-panic (b ∷ bs) (suc i) h = index-ne-panic bs i (omega arith)

-- A round of the loop over the options does not panic, and goes on.
abbrev GoesOn : ℕ → Result (Option (ℕ × Bytes)) → Type 0
GoesOn i (ok none) = Unit
GoesOn i (ok (some (j, buf))) = i < j
GoesOn i (err e) = Unit
GoesOn i panic = ⊥

index_lt : (bs : Bytes) (i : ℕ) → i < length bs → (b : ℕ) × (index bs i ≡ ok b)
unfolding index
index_lt [] i h = elim h [ ]
index_lt (b ∷ bs) zero h = (b, refl)
index_lt (b ∷ bs) (suc i) h = index_lt bs i (omega (arith, h))

slice_le :
    (lo hi : ℕ) (bs : Bytes)
    → lo ≤ hi
    → hi ≤ length bs
    → slice lo hi bs ≡ ok (take (hi - lo) (drop lo bs))
unfolding slice
slice_le lo hi bs h k = ground (arith, h, k)

url_data-GoesOn : (packet : Bytes) (i : ℕ) (buf : Bytes) → GoesOn i (url_data packet i buf)
unfolding url_data
url_data-GoesOn packet i buf = elim (Bool-cases (leb (length packet) (i + 1))) [
  | inl e ↦ rw e tt
  | inr e ↦
      let (len, q) = index_lt packet (i + 1) (ground (arith, e)) in
      elim (Bool-cases (ltb (length packet) (i + 2 + len))) [
        | inl f ↦ rw (e, q, f) tt
        | inr f ↦
            rw (e, q, f, slice_le (i + 2) (i + 2 + len) packet (omega arith) (ground (arith, f)))
              (omega arith)
      ]
]

option_at-GoesOn :
    (packet : Bytes) (i : ℕ) (buf : Bytes) → i < length packet → GoesOn i (option_at packet i buf)
unfolding option_at
option_at-GoesOn packet i buf h =
    let (option, q) = index_lt packet i h in
    rw q (
      if-GoesOn i (option == option_end_of_options) _ _ tt (
        if-GoesOn i (option == option_nop) _ _ (omega arith)
          (if-GoesOn i (option == option_url_data) _ _ (url_data-GoesOn packet i buf) tt)))
  where
    if-GoesOn :
        (i : ℕ) (b : Bool) (x y : Result (Option (ℕ × Bytes)))
        → GoesOn i x
        → GoesOn i y
        → GoesOn i (if b then x else y)
    if-GoesOn i true x y h k = h
    if-GoesOn i false x y h k = k

options_behind-ne-panic :
    (i : ℕ) (r : Result (Option (ℕ × Bytes))) (buf : Bytes) (next : ℕ → Bytes → Result Bytes)
    → GoesOn i r
    → ((j : ℕ) (buf' : Bytes) → i < j → next j buf' ≢ panic)
    → options_behind r buf next ≢ panic
options_behind-ne-panic i (ok none) buf next h k = λ p. cc
options_behind-ne-panic i (ok (some (j, buf'))) buf next h k = k j buf' h
options_behind-ne-panic i (err e) buf next h k = λ p. cc
options_behind-ne-panic i panic buf next h k = absurd h

parse_options-ne-panic :
    (fuel : ℕ) (packet : Bytes) (i : ℕ) (buf : Bytes)
    → length packet < fuel + i
    → 0 < fuel
    → parse_options fuel packet i buf ≢ panic
unfolding parse_options
parse_options-ne-panic zero packet i buf h k = elim k [ ]
parse_options-ne-panic (suc fuel) packet i buf h k = elim (Bool-cases (ltb i (length packet))) [
  | inl e ↦ rw e (
      options_behind-ne-panic i (option_at packet i buf) buf (parse_options fuel packet)
        (option_at-GoesOn packet i buf (ground (arith, e)))
        λ j buf' g.
          parse_options-ne-panic fuel packet j buf' (omega (arith, h, g)) (ground (arith, e, h)))
  | inr e ↦ rw e λ p. cc
]

hex_decode-ne-panic : (bs : Bytes) → hex_decode bs ≢ panic
unfolding hex_decode
hex_decode-ne-panic [] = λ p. cc
hex_decode-ne-panic (p ∷ []) = λ p. cc
hex_decode-ne-panic (p ∷ q ∷ bs) =
    >>=-ne-panic (hex_pair (hex_value p) (hex_value q)) _ (ground arith)
      λ b. >>=-ne-panic (hex_decode bs) _ (hex_decode-ne-panic bs) λ rest e. cc

pub new_info_hash-ne-panic : (bs : Bytes) → new_info_hash bs ≢ panic
unfolding new_info_hash
new_info_hash-ne-panic bs = ground (arith, hex_decode-ne-panic bs)

pub new_peer_id-ne-panic : (bs : Bytes) → new_peer_id bs ≢ panic
unfolding new_peer_id
new_peer_id-ne-panic bs = ground arith

module _ (lower : Bytes → Bytes) (range : Map Addr Bool → Map Addr Bool) where
  put_field-ne-panic :
      (field : Bytes) (params : Map Bytes Bytes) → put_field lower field params ≢ panic
  unfolding put_field
  put_field-ne-panic [] params = λ p. cc
  put_field-ne-panic (c ∷ cs) params = ground arith

  parse_fields-ne-panic :
      (fuel : ℕ) (query : Bytes) (params : Map Bytes Bytes)
      → length query ≤ fuel
      → parse_fields lower fuel query params ≢ panic
  unfolding parse_fields
  parse_fields-ne-panic fuel [] params h = λ p. cc
  parse_fields-ne-panic zero (b ∷ bs) params h = elim h [ ]
  parse_fields-ne-panic (suc fuel) (b ∷ bs) params h =
      >>=-ne-panic (put_field lower (next_field (b ∷ bs)).0 params) _
        (put_field-ne-panic (next_field (b ∷ bs)).0 params)
        λ params'.
          parse_fields-ne-panic fuel (next_field (b ∷ bs)).1 params'
            (omega (arith, next_field_shrinks b bs))

  pub parse_query-ne-panic : (query : Bytes) → parse_query lower query ≢ panic
  unfolding parse_query
  parse_query-ne-panic query = parse_fields-ne-panic _ _ [] (le_refl _)

  handle_optional_parameters-ne-panic :
      (packet : Bytes) → handle_optional_parameters lower packet ≢ panic
  unfolding handle_optional_parameters
  handle_optional_parameters-ne-panic [] =
      >>=-ne-panic (parse_query lower []) _ (parse_query-ne-panic []) λ params e. cc
  handle_optional_parameters-ne-panic (b ∷ packet) =
      >>=-ne-panic (parse_options (length (b ∷ packet) + 1) (b ∷ packet) 0 []) _
        (parse_options-ne-panic (length (b ∷ packet) + 1) (b ∷ packet) 0 [] (omega arith)
          (omega arith))
        λ buf. >>=-ne-panic (parse_query lower buf) _ (parse_query-ne-panic buf) λ params e. cc

  pub sanitize_announce-ne-panic :
      (r : AnnounceRequest) (max default : ℕ) (fp : Bool)
      → sanitize_announce range r max default fp ≢ panic
  unfolding sanitize_announce
  sanitize_announce-ne-panic r max default fp = ground arith

  pub sanitize_scrape-ne-panic :
      (r : ScrapeRequest) (max : ℕ) (fp : Bool) → sanitize_scrape range r max fp ≢ panic
  unfolding sanitize_scrape
  sanitize_scrape-ne-panic r max fp = ground arith

  module _ (r : Request) (opts : ParseOptions) (n : ℕ) (big : 88 ≤ n)
      (long : n + 10 ≤ length r.packet) where
    sliced : (lo hi : ℕ) → lo ≤ hi → hi ≤ n + 10 → slice lo hi r.packet ≢ panic
    sliced lo hi h k = slice-ne-panic lo hi r.packet h (omega (arith, k, long))

    -- the parser of an announce behind its length test
    announce_body-ne-panic : announce_body lower range r opts n ≢ panic
    unfolding announce_body
    announce_body-ne-panic =
        >>=-ne-panic (slice 16 36 r.packet) _ (sliced 16 36 (omega arith) (omega arith)) λ b.
          >>=-ne-panic (or_err (new_info_hash b) _) _
            (or_err-ne-panic _ _ (new_info_hash-ne-panic b))
            λ ih.
              >>=-ne-panic (slice 36 56 r.packet) _ (sliced 36 56 (omega arith) (omega arith)) λ c.
                >>=-ne-panic (or_err (new_peer_id c) _) _
                  (or_err-ne-panic _ _ (new_peer_id-ne-panic c))
                  λ id.
                    >>=-ne-panic (slice 56 64 r.packet) _ (sliced 56 64 (omega arith) (omega arith))
                      λ d.
                        >>=-ne-panic (slice 64 72 r.packet) _
                          (sliced 64 72 (omega arith) (omega arith))
                          λ l.
                            >>=-ne-panic (slice 72 80 r.packet) _
                              (sliced 72 80 (omega arith) (omega arith))
                              λ u.
                                >>=-ne-panic (index r.packet 83) _
                                  (index-ne-panic r.packet 83 (omega arith))
                                  λ i. >>=-ne-panic (event_of i) _ (event_of-ne-panic i) λ e.
                                    >>=-ne-panic (slice 84 n r.packet) _
                                      (sliced 84 n (omega arith) (omega arith))
                                      λ s.
                                        >>=-ne-panic (slice (n + 4) (n + 8) r.packet) _
                                          (sliced _ _ (omega arith) (omega arith))
                                          λ w.
                                            >>=-ne-panic (slice (n + 8) (n + 10) r.packet) _
                                              (sliced _ _ (omega arith) (omega arith))
                                              λ p.
                                                >>=-ne-panic
                                                  (slice (n + 10) (length r.packet) r.packet) _
                                                  (slice-ne-panic _ _ r.packet long (le_refl _))
                                                  λ o.
                                                    >>=-ne-panic
                                                      (handle_optional_parameters lower o) _
                                                      (handle_optional_parameters-ne-panic o)
                                                      λ q.
                                                        sanitize_announce-ne-panic _
                                                          opts.max_num_want opts.default_num_want
                                                          opts.filter_private_ips

  -- Whatever bytes a packet holds, the announce parser returns a request or an error: no slice or index
  -- is out of range, and the loops over options and query fields end.
  pub parse_announce-ne-panic :
      (r : Request) (v6_action : Bool) (opts : ParseOptions)
      → parse_announce lower range r v6_action opts ≢ panic
  unfolding parse_announce
  parse_announce-ne-panic r v6_action opts =
      let ip_end : ℕ = if v6_action then 84 + 16 else 84 + 4 in
      guard-ne-panic (ltb (length r.packet) (ip_end + 10)) err_malformed_packet
        (announce_body lower range r opts ip_end)
        λ e. announce_body-ne-panic r opts ip_end (ground arith) (ground arith)

  parse_hashes-ne-panic :
      (fuel : ℕ) (packet : Bytes) (hashes : List InfoHash)
      → length packet < fuel
      → parse_hashes fuel packet hashes ≢ panic
  unfolding parse_hashes
  parse_hashes-ne-panic zero packet hashes h = elim h [ ]
  parse_hashes-ne-panic (suc fuel) packet hashes h =
      elim (Bool-cases (ltb (length packet) info_hash_v1_len)) [
        | inl short ↦ rw short λ e. cc
        | inr long ↦ rw long (
            >>=-ne-panic (slice 0 info_hash_v1_len packet) _
              (slice-ne-panic _ _ packet (omega arith) (ground arith))
              λ b. >>=-ne-panic (new_info_hash b) _ (new_info_hash-ne-panic b) λ ih.
                parse_hashes-ne-panic fuel (drop info_hash_v1_len packet) (hashes ++ ih ∷ [])
                  (ground (arith, length-drop info_hash_v1_len packet)))
      ]

  -- Whatever bytes a packet holds, the scrape parser returns a request or an error: no slice is out of
  -- range, and the loop over the hashes ends.
  pub parse_scrape-ne-panic :
      (r : Request) (opts : ParseOptions) → parse_scrape range r opts ≢ panic
  unfolding parse_scrape
  parse_scrape-ne-panic r opts =
      guard-ne-panic (ltb (length r.packet) 36) err_malformed_packet _ λ e.
        guard'-ne-panic ((length packet % info_hash_v1_len) == 0) _ err_malformed_packet λ e'.
          >>=-ne-panic (parse_hashes (length packet + 1) packet []) _
            (parse_hashes-ne-panic (length packet + 1) packet [] (omega arith))
            λ hashes.
              sanitize_scrape-ne-panic
                (record { addresses = (r.ip, false) ∷ []; info_hashes = hashes; params = none })
                opts.max_scrape_info_hashes opts.filter_private_ips
    where
      packet : Bytes
      packet = drop 16 r.packet
