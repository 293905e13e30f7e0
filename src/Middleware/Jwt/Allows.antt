-- ===== src/Middleware/Jwt/Allows.antt =====
-- middleware/jwt/jwt.go: which requests a token lets pass.
use mochi.Base.{
  ◌≡◌, ◌≢◌, ◌↔◌, ◌⊎◌, refl, ap, sym, ◌∙◌, Bool, true, false, ◌&&◌, Option, none, some, List, [],
  ◌∷◌, if_true, if_false, ◌==◌, ==_iff, if◌then◌else◌, length, All, Bool-cases, inl, inr,
}
use mochi.Base.Bytes.{Bytes, bytes_eq, bytes_eq_iff}
use mochi.Result.{Error, Result, ok, err, panic}
use mochi.Bittorrent.Hash.{InfoHash, new_info_hash}
use mochi.Bittorrent.Request.{AnnounceRequest, AnnounceResponse, ScrapeRequest, ScrapeResponse}
use mochi.Middleware.Response.{Context}
use mochi.Middleware.Safety.{IsSafe, IsSafeHook, if-IsSafe}
use mochi.Middleware.Jwt.{
  jwt_hook, JwtHook, get_jwt_string, hash_verdict, announce_verdict, scrape_verdict, with_token,
  after_verdict, claimed, with_claim, found, all_found, check_announce, check_scrape,
  err_invalid_jwt,
}

-- The request carries a token that is accepted and claims the hash of the request.
abbrev pub IsAllowed : JwtHook → AnnounceRequest → Type 0
IsAllowed h req =
    (claim : Bytes) × (get_jwt_string h.header (some req.params) ≢ [])
    × (h.parse_announce (get_jwt_string h.header (some req.params)) ≡ some claim)
    × (new_info_hash claim ≡ ok req.info_hash)

-- A text of the token reads as the hash.
abbrev pub IsClaimed : InfoHash → List Bytes → Type 0
IsClaimed ih [] = ⊥
IsClaimed ih (s ∷ ss) = (new_info_hash s ≡ ok ih) ⊎ IsClaimed ih ss

allowed_true :
    (b : Bool) → if◌then◌else◌ {A = Option Error} b none (some err_invalid_jwt) ≡ none → b ≡ true
allowed_true true e = refl
allowed_true false e = absurd (cc)

hash_verdict-none : (ih : InfoHash) (r : Result InfoHash) → hash_verdict ih r ≡ none → r ≡ ok ih
hash_verdict-none ih (ok jh) e =
    ap ok (sym ((bytes_eq_iff ih jh).0 (allowed_true (bytes_eq ih jh) e)))
hash_verdict-none ih (err x) e = absurd (cc)
hash_verdict-none ih panic e = absurd (cc)

hash_verdict-same : (ih : InfoHash) → hash_verdict ih (ok ih) ≡ none
hash_verdict-same ih = rw ((bytes_eq_iff ih ih).1 refl) refl

announce_verdict-none :
    (ih : InfoHash) (p : Option Bytes)
    → announce_verdict ih p ≡ none
    → (claim : Bytes) × (p ≡ some claim) × (new_info_hash claim ≡ ok ih)
announce_verdict-none ih (some claim) e =
    (claim, refl, hash_verdict-none ih (new_info_hash claim) e)
announce_verdict-none ih none e = absurd (cc)

-- a token that passes is there, and passes the test
with_token-none :
    (t : Bytes) (f : Bytes → Option Error) → with_token t f ≡ none → (t ≢ []) × (f t ≡ none)
with_token-none [] f e = absurd (cc)
with_token-none (b ∷ bs) f e = (λ q. absurd (cc), e)

with_token-full : (t : Bytes) (f : Bytes → Option Error) → t ≢ [] → with_token t f ≡ f t
with_token-full [] f n = absurd (n refl)
with_token-full (b ∷ bs) f n = refl

after_verdict-ok :
    {S A : Type 0} (v : Option Error) (a : A) (s : S) → after_verdict v a s ≡ (ok a, s) → v ≡ none
after_verdict-ok none a s e = refl
after_verdict-ok (some x) a s e = absurd (ok-ne-err (ap (λ r. r.0) e))
  where
    ok-ne-err : err x ≡ ok a → ⊥
    ok-ne-err q = cc

-- Where announces are checked, an announce passes, unchanged, exactly if it carries a token that is accepted
-- and claims its hash.
pub check_announce_iff :
    {S : Type 0} (h : JwtHook) (ctx : Context) (req : AnnounceRequest) (resp : AnnounceResponse)
    (s : S)
    → h.handle_announce ≡ true
    → (check_announce h ctx req resp s ≡ (ok (ctx, resp), s)) ↔ IsAllowed h req
unfolding check_announce
check_announce_iff h ctx req resp s on =
    let t = get_jwt_string h.header (some req.params) in
    let f : Bytes → Option Error = λ jwt. announce_verdict req.info_hash (h.parse_announce jwt) in
    rw on (
      λ e.
          let (n, v) = with_token-none t f (after_verdict-ok (with_token t f) (ctx, resp) s e) in
          let (claim, p, q) = announce_verdict-none req.info_hash (h.parse_announce t) v in
          (claim, n, p, q),
      λ (claim, n, p, q). rw (with_token-full t f n, p, q, hash_verdict-same req.info_hash) refl,
    )

-- what is found, after a claim is read, was read or is found in the rest
found-with_claim :
    (ih : InfoHash) (r : Result InfoHash) (hs : List InfoHash)
    → found ih (with_claim r hs) ≡ true
    → (r ≡ ok ih) ⊎ (found ih hs ≡ true)
found-with_claim ih (ok jh) hs e = elim (Bool-cases (bytes_eq ih jh)) [
  | inl q ↦ inl (ap ok (sym ((bytes_eq_iff ih jh).0 q)))
  | inr q ↦ inr (sym (if_false (bytes_eq ih jh) true (found ih hs) q) ∙ e)
]
found-with_claim ih (err x) hs e = inr e
found-with_claim ih panic hs e = inr e

found-IsClaimed : (ih : InfoHash) (ss : List Bytes) → found ih (claimed ss) ≡ true → IsClaimed ih ss
unfolding claimed
found-IsClaimed ih [] e = absurd (cc)
found-IsClaimed ih (s ∷ ss) e = elim (found-with_claim ih (new_info_hash s) (claimed ss) e) [
  | inl q ↦ inl q
  | inr q ↦ inr (found-IsClaimed ih ss q)
]

both_true : (a b : Bool) → (a && b) ≡ true → (a ≡ true) × (b ≡ true)
both_true true b e = (refl, e)
both_true false b e = absurd (cc)

all_found-IsClaimed :
    (ihs : List InfoHash) (ss : List Bytes)
    → all_found ihs (claimed ss) ≡ true
    → All (λ ih. IsClaimed ih ss) ihs
all_found-IsClaimed [] ss e = tt
all_found-IsClaimed (ih ∷ ihs) ss e =
    let (a, b) = both_true (found ih (claimed ss)) (all_found ihs (claimed ss)) e in
    (found-IsClaimed ih ss a, all_found-IsClaimed ihs ss b)

-- The texts of the token are as many hashes as are asked for, and name every one of them.
abbrev pub AllClaimed : JwtHook → ScrapeRequest → Type 0
AllClaimed h req =
    (ss : List Bytes) × (h.parse_scrape (get_jwt_string h.header req.params) ≡ some ss)
    × (length req.info_hashes ≡ length (claimed ss))
    × All (λ ih. IsClaimed ih ss) req.info_hashes

scrape_verdict-none :
    (ihs : List InfoHash) (p : Option (List Bytes))
    → scrape_verdict ihs p ≡ none
    → (ss : List Bytes) × (p ≡ some ss)
      × (length ihs ≡ length (claimed ss))
      × All (λ ih. IsClaimed ih ss) ihs
scrape_verdict-none ihs (some ss) e =
    let (a, b) =
      both_true (length ihs == length (claimed ss)) (all_found ihs (claimed ss))
        (allowed_true _ e) in
    (ss, refl, (==_iff _ _).0 a, all_found-IsClaimed ihs ss b)
scrape_verdict-none ihs none e = absurd (cc)

-- Where scrapes are checked, a scrape passes only with a token that is accepted, claims as many hashes as are
-- asked for, and claims every one of them.
pub check_scrape-AllClaimed :
    {S : Type 0} (h : JwtHook) (ctx : Context) (req : ScrapeRequest) (resp : ScrapeResponse) (s : S)
    → h.handle_scrape ≡ true
    → check_scrape h ctx req resp s ≡ (ok (ctx, resp), s)
    → AllClaimed h req
unfolding check_scrape
check_scrape-AllClaimed h ctx req resp s on e =
    let t = get_jwt_string h.header req.params in
    let f : Bytes → Option Error = λ jwt. scrape_verdict req.info_hashes (h.parse_scrape jwt) in
    let e' : after_verdict (with_token t f) (ctx, resp) s ≡ (ok (ctx, resp), s) =
      sym (if_true _ _ _ on) ∙ e in
    scrape_verdict-none req.info_hashes (h.parse_scrape t)
      (with_token-none t f (after_verdict-ok (with_token t f) (ctx, resp) s e')).1

-- the hook does not write, and does not panic
pub jwt-IsSafeHook : {S : Type 0} (Good : S → Type 0) (h : JwtHook) → IsSafeHook Good (jwt_hook h)
unfolding check_announce check_scrape
jwt-IsSafeHook {S = S} Good h = record {
  announce_safe =
      λ ctx req resp s l g. if-IsSafe Good _ _ _ (after_verdict-IsSafe _ _ s g) (g, λ p. cc);
  scrape_safe =
      λ ctx req resp s l g. if-IsSafe Good _ _ _ (after_verdict-IsSafe _ _ s g) (g, λ p. cc);
}
  where
    after_verdict-IsSafe :
        {A : Type 0} (v : Option Error) (a : A) (s : S) → Good s → IsSafe Good (after_verdict v a s)
    after_verdict-IsSafe none a s g = (g, λ p. cc)
    after_verdict-IsSafe (some e) a s g = (g, λ p. cc)
