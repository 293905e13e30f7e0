-- ===== src/Frontend/Http/Routes.antt =====
-- frontend/http/frontend.go: the table of routes. path.Clean is a parameter.
use mochi.Base.{
  ◌≡◌, refl, ◌∙◌, ap, Bool, true, false, ◌||◌, none, some, List, [], ◌∷◌, map, ◌==◌, arith,
  if◌then◌else◌,
}
use mochi.Base.Bytes.{Bytes, Bytes-discrete, bytes_eq}
use mochi.Base.Map
use mochi.Base.Map.{Map, get-insert}
use mochi.Frontend.Http.Config.{Config}

-- f.announceRoute, f.scrapeRoute or f.ping
pub data Handler : Type 0 where
  announcing scraping pinging : Handler

-- path.IsAbs, and the slash before a path that is not
unfoldable pub absolute : Bytes → Bytes
absolute [] = b'/' ∷ []
absolute (b ∷ bs) = if b == b'/' then b ∷ bs else b'/' ∷ b ∷ bs

module _ (clean : Bytes → Bytes) where
  -- the path that a route is entered under
  abbrev pub announce_path : Bytes → Bytes
  announce_path route = absolute (clean route)

  abbrev pub other_path : Bytes → Bytes
  other_path route = clean (absolute (clean route))

  -- the three loops over the configured routes; the last two clean twice
  unfoldable pub add_announces : List Bytes → Map Bytes Handler → Map Bytes Handler
  add_announces [] routing = routing
  add_announces (route ∷ routes) routing =
      add_announces routes (Map.insert Bytes-discrete (announce_path route) announcing routing)

  unfoldable pub add_others : Handler → List Bytes → Map Bytes Handler → Map Bytes Handler
  add_others h [] routing = routing
  add_others h (route ∷ routes) routing =
      add_others h routes (Map.insert Bytes-discrete (other_path route) h routing)

  unfoldable pub path_routing : Config → Map Bytes Handler
  path_routing cfg =
      add_others pinging cfg.ping_routes
        (add_others scraping cfg.scrape_routes (add_announces cfg.announce_routes []))

-- The path is one of the list.
unfoldable pub listed : Bytes → List Bytes → Bool
listed p [] = false
listed p (q ∷ qs) = bytes_eq p q || listed p qs

get_inserted :
    (p k : Bytes) (h : Handler) (m : Map Bytes Handler)
    → Map.get Bytes-discrete p (Map.insert Bytes-discrete k h m)
      ≡ (if bytes_eq p k then some h else Map.get Bytes-discrete p m)
unfolding bytes_eq
get_inserted p k h m = ground (arith, get-insert Bytes-discrete p k h m)

if_or {ℓ} :
    {A : Type ℓ} (b c : Bool) (x y : A)
    → (if c then x else (if b then x else y)) ≡ (if b || c then x else y)
if_or true true x y = refl
if_or true false x y = refl
if_or false c x y = refl

module _ (clean : Bytes → Bytes) (p : Bytes) where
  get-add_announces :
      (routes : List Bytes) (m : Map Bytes Handler)
      → Map.get Bytes-discrete p (add_announces clean routes m) ≡ (
          if listed p (map (announce_path clean) routes)
          then some announcing
          else Map.get Bytes-discrete p m)
  unfolding add_announces listed
  get-add_announces [] m = refl
  get-add_announces (r ∷ rs) m =
      get-add_announces rs (Map.insert Bytes-discrete (announce_path clean r) announcing m)
      ∙ ap (λ o. if listed p (map (announce_path clean) rs) then some announcing else o)
          (get_inserted p (announce_path clean r) announcing m)
      ∙ if_or (bytes_eq p (announce_path clean r)) (listed p (map (announce_path clean) rs)) _ _

  get-add_others :
      (h : Handler) (routes : List Bytes) (m : Map Bytes Handler)
      → Map.get Bytes-discrete p (add_others clean h routes m)
        ≡ (if listed p (map (other_path clean) routes) then some h else Map.get Bytes-discrete p m)
  unfolding add_others listed
  get-add_others h [] m = refl
  get-add_others h (r ∷ rs) m =
      get-add_others h rs (Map.insert Bytes-discrete (other_path clean r) h m)
      ∙ ap (λ o. if listed p (map (other_path clean) rs) then some h else o)
          (get_inserted p (other_path clean r) h m)
      ∙ if_or (bytes_eq p (other_path clean r)) (listed p (map (other_path clean) rs)) _ _

  -- Whatever routes are configured, a path is routed to the ping if it is a route of it, else to the scrape
  -- if it is a route of that, else to the announce if it is a route of that, and else to no handler.
  pub get-path_routing :
      (cfg : Config)
      → Map.get Bytes-discrete p (path_routing clean cfg) ≡ (
          if listed p (map (other_path clean) cfg.ping_routes)
          then some pinging
          else if listed p (map (other_path clean) cfg.scrape_routes)
          then some scraping
          else if listed p (map (announce_path clean) cfg.announce_routes)
          then some announcing
          else none)
  unfolding path_routing Map.get
  get-path_routing cfg =
      get-add_others pinging cfg.ping_routes _
      ∙ ap (λ o. if listed p (map (other_path clean) cfg.ping_routes) then some pinging else o)
          (get-add_others scraping cfg.scrape_routes _
            ∙ ap
                (λ o.
                  if listed p (map (other_path clean) cfg.scrape_routes) then some scraping else o)
                (get-add_announces cfg.announce_routes []))
