-- ===== src/Middleware/Jwt.antt =====
-- middleware/jwt/jwt.go: the hook that asks for a token. The parser of tokens, with its keys, is of other
-- repositories: `parse` gives the claim of a token that it accepts.
pub mod Allows
use mochi.Base.{
  ℕ, ◌≡◌, ◌≢◌, ◌↔◌, refl, ap, sym, subst, ◌∙◌, Bool, true, false, not, ◌&&◌, Option, none, some,
  List, [], ◌∷◌, arith, ◌==◌, ltb, leb, if◌then◌else◌, length, drop, All, Bool-cases, inl, inr,
}
use mochi.Base.Bytes.{Bytes, has_prefix, bytes_eq, bytes_eq_iff}
use mochi.Result.{Error, client_error, Result, ok, err, panic, Act, codes}
use mochi.Bittorrent.Event.{to_lower}
use mochi.Bittorrent.Hash.{InfoHash, new_info_hash}
use mochi.Bittorrent.Request.{
  Params, AnnounceRequest, AnnounceResponse, ScrapeRequest, ScrapeResponse,
}
use mochi.Middleware.Response.{Context}
use mochi.Middleware.Logic.{Hook}

abbrev pub bearer_auth_prefix : Bytes
bearer_auth_prefix = codes "bearer "

abbrev pub err_missing_jwt : Error
err_missing_jwt = client_error "request not allowed by mochi: missing jwt"

abbrev pub err_invalid_jwt : Error
err_invalid_jwt = client_error "request not allowed by mochi: invalid jwt"

-- hook.getJWTString: the header of the request, less "bearer " in any case. The slice is in range, since
-- lower case keeps the seven bytes.
unfoldable pub get_jwt_string : Bytes → Option Params → Bytes
get_jwt_string header none = []
get_jwt_string header (some params) = elim (params header) [
  | none ↦ []
  | some jwt ↦
      if has_prefix (to_lower jwt) bearer_auth_prefix
      then drop (length bearer_auth_prefix) jwt
      else jwt
]

-- NewInfoHash does not panic.
abbrev pub hash_verdict : InfoHash → Result InfoHash → Option Error
hash_verdict info_hash (ok claim_ih) =
    if bytes_eq info_hash claim_ih then none else some err_invalid_jwt
hash_verdict info_hash (err e) = some err_invalid_jwt
hash_verdict info_hash panic = some err_invalid_jwt

-- the test of the claim of an announce
abbrev pub announce_verdict : InfoHash → Option Bytes → Option Error
announce_verdict info_hash (some claim) = hash_verdict info_hash (new_info_hash claim)
announce_verdict info_hash none = some err_invalid_jwt

abbrev pub with_claim : Result InfoHash → List InfoHash → List InfoHash
with_claim (ok ih) hs = ih ∷ hs
with_claim (err e) hs = hs
with_claim panic hs = hs

-- the claimed hashes; what is no hash is logged and left out
unfoldable pub claimed : List Bytes → List InfoHash
claimed [] = []
claimed (s ∷ ss) = with_claim (new_info_hash s) (claimed ss)

abbrev pub found : InfoHash → List InfoHash → Bool
found ih [] = false
found ih (jh ∷ hs) = if bytes_eq ih jh then true else found ih hs

abbrev pub all_found : List InfoHash → List InfoHash → Bool
all_found [] hs = true
all_found (ih ∷ ihs) hs = found ih hs && all_found ihs hs

abbrev pub scrape_verdict : List InfoHash → Option (List Bytes) → Option Error
scrape_verdict ihs (some ss) =
    if (length ihs == length (claimed ss)) && all_found ihs (claimed ss)
    then none
    else some err_invalid_jwt
scrape_verdict ihs none = some err_invalid_jwt

-- The hook, with the parser of tokens for announces and for scrapes.
pub record JwtHook : Type 0 where
  pub header : Bytes
  pub handle_announce : Bool
  pub handle_scrape : Bool
  pub parse_announce : Bytes → Option Bytes
  pub parse_scrape : Bytes → Option (List Bytes)

abbrev pub after_verdict : {S A : Type 0} → Option Error → A → S → Result A × S
after_verdict none a s = (ok a, s)
after_verdict (some e) a s = (err e, s)

abbrev pub with_token : Bytes → (Bytes → Option Error) → Option Error
with_token [] f = some err_missing_jwt
with_token (b ∷ bs) f = f (b ∷ bs)

unfoldable pub check_announce :
    {S : Type 0}
    → JwtHook
    → Context
    → AnnounceRequest
    → AnnounceResponse
    → Act S (Context × AnnounceResponse)
check_announce h ctx req resp s =
    if h.handle_announce
    then after_verdict
        (with_token (get_jwt_string h.header (some req.params))
          λ jwt. announce_verdict req.info_hash (h.parse_announce jwt))
        (ctx, resp) s
    else (ok (ctx, resp), s)

unfoldable pub check_scrape :
    {S : Type 0}
    → JwtHook
    → Context
    → ScrapeRequest
    → ScrapeResponse
    → Act S (Context × ScrapeResponse)
check_scrape h ctx req resp s =
    if h.handle_scrape
    then after_verdict
        (with_token (get_jwt_string h.header req.params)
          λ jwt. scrape_verdict req.info_hashes (h.parse_scrape jwt))
        (ctx, resp) s
    else (ok (ctx, resp), s)

abbrev pub jwt_hook : {S : Type 0} → JwtHook → Hook S
jwt_hook h = record { handle_announce = check_announce h; handle_scrape = check_scrape h }
