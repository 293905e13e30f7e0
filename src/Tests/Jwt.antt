-- ===== src/Tests/Jwt.antt =====
-- Runs of the token hook at concrete values.
use mochi.Base.{◌≡◌, ◌↔◌, refl, true, Option, none, some, [], ◌∷◌}
use mochi.Base.Bytes.{Bytes, bytes_eq, has_prefix, Bytes-discrete}
use mochi.Result.{ok, codes}
use mochi.Bittorrent.Event.{to_lower}
use mochi.Bittorrent.Hash.{new_info_hash}
use mochi.Bittorrent.Request.{ScrapeRequest}
use mochi.Middleware.Jwt.{JwtHook, check_announce, check_scrape, get_jwt_string, claimed}
use mochi.Middleware.Jwt.Allows.{IsAllowed, AllClaimed, check_announce_iff, check_scrape-AllClaimed}
use mochi.Tests.{hash, store, announce, one_address, scrape}
use mochi.Tests.Middleware.{context, empty_response}

-- a parser that accepts one token
abbrev only_secret : {A : Type 0} → A → Bytes → Option A
only_secret a [] = none
only_secret a (b ∷ bs) = some a

abbrev tokens : JwtHook
tokens = record {
  header = codes "authorization";
  handle_announce = true;
  handle_scrape = true;
  parse_announce = only_secret hash;
  parse_scrape = only_secret (hash ∷ []);
}

check_announce_iff_example :
    (check_announce tokens context (announce one_address 50) empty_response store
      ≡ (ok (context, empty_response), store))
    ↔ IsAllowed tokens (announce one_address 50)
check_announce_iff_example =
    check_announce_iff tokens context (announce one_address 50) empty_response store refl

abbrev with_header : ScrapeRequest
with_header = record (scrape 1) { params = some λ key. some (codes "Bearer secret") }

let_pass : check_scrape tokens context with_header [] store ≡ (ok (context, []), store)
unfolding check_scrape get_jwt_string claimed new_info_hash bytes_eq Bytes-discrete has_prefix
    to_lower
let_pass = refl

check_scrape-AllClaimed_example : AllClaimed tokens with_header
check_scrape-AllClaimed_example =
    check_scrape-AllClaimed tokens context with_header [] store refl let_pass
