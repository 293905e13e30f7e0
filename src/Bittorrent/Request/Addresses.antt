-- ===== src/Bittorrent/Request/Addresses.antt =====
-- bittorrent/request.go: what `sanitize` makes of the addresses of a request.
use mochi.Base.{
  ◌+◌, ◌≡◌, refl, Bool, true, false, ◌&&◌, ◌||◌, [], ◌∷◌, Option, none, some, arith, if◌then◌else◌,
  length, ltb, ite, All, Bool-cases, sym, ap, ◌∙◌, inl, inr,
}
use mochi.Base.Map
use mochi.Base.Map.{Map, get-insert, insert-IsMap}
use mochi.Netip.{Addr, no_addr, Addr-discrete}
use mochi.Bittorrent.Request.{
  RequestAddress, RequestAddresses, less, is_valid, is_accepted, collect_one, collect, sort_insert,
  sort, sanitize,
}

-- The flags of the accepted entries for an address: `none` without one, else whether one of them
-- was provided by the client.
unfoldable pub flag_of : Bool → Addr → RequestAddresses → Option Bool
flag_of ignore_private a [] = none
flag_of ignore_private a ((b, p) ∷ aa) =
    let rest = flag_of ignore_private a aa in
    if is_accepted ignore_private (b, p) && ite (Addr-discrete a b) true false
    then some (p || elim rest [ none ↦ false | some q ↦ q ])
    else rest

abbrev merge : Option Bool → Option Bool → Option Bool
merge none o = o
merge (some p) none = some p
merge (some p) (some q) = some (p || q)

-- `range` meets each entry of a map exactly once.
abbrev pub IsRange : (Map Addr Bool → Map Addr Bool) → Type 0
IsRange range =
    (m : Map Addr Bool)
    → Map.IsMap Addr-discrete m
    → Map.IsMap Addr-discrete (range m)
      × (length (range m) ≡ length m)
      × ((a : Addr) → Map.get Addr-discrete a (range m) ≡ Map.get Addr-discrete a m)

-- Addresses that the client provided come before the others.
abbrev pub ProvidedFirst : RequestAddresses → Type 0
ProvidedFirst [] = Unit
ProvidedFirst (a ∷ aa) = (a.1 ≡ false → All (λ b. b.1 ≡ false) aa) × ProvidedFirst aa

module _ (ig : Bool) where
  get-collect_one :
      (a : Addr) (u : Map Addr Bool) (e : RequestAddress)
      → Map.get Addr-discrete a (collect_one ig u e)
        ≡ merge (Map.get Addr-discrete a u) (flag_of ig a (e ∷ []))
  unfolding collect_one flag_of
  get-collect_one a u (b, p) = ground (arith, get-insert Addr-discrete a b p u)

  flag_of-cons :
      (a : Addr) (e : RequestAddress) (aa : RequestAddresses)
      → flag_of ig a (e ∷ aa) ≡ merge (flag_of ig a (e ∷ [])) (flag_of ig a aa)
  unfolding flag_of
  flag_of-cons a (b, p) aa = ground arith

  merge_assoc : (o p q : Option Bool) → merge (merge o p) q ≡ merge o (merge p q)
  merge_assoc o p q = ground arith

  get-collect :
      (a : Addr) (u : Map Addr Bool) (aa : RequestAddresses)
      → Map.get Addr-discrete a (collect ig u aa)
        ≡ merge (Map.get Addr-discrete a u) (flag_of ig a aa)
  unfolding collect
  get-collect a u [] = unfold flag_of in ground arith
  get-collect a u (e ∷ aa) = cc (
    get-collect a (collect_one ig u e) aa,
    get-collect_one a u e,
    flag_of-cons a e aa,
    merge_assoc (Map.get Addr-discrete a u) (flag_of ig a (e ∷ [])) (flag_of ig a aa),
  )

  collect_one-IsMap :
      (u : Map Addr Bool) (e : RequestAddress)
      → Map.IsMap Addr-discrete u
      → Map.IsMap Addr-discrete (collect_one ig u e)
  unfolding collect_one
  collect_one-IsMap u (b, p) h = ground (arith, insert-IsMap Addr-discrete b p u)

  collect-IsMap :
      (u : Map Addr Bool) (aa : RequestAddresses)
      → Map.IsMap Addr-discrete u
      → Map.IsMap Addr-discrete (collect ig u aa)
  unfolding collect
  collect-IsMap u [] h = h
  collect-IsMap u (e ∷ aa) h = collect-IsMap (collect_one ig u e) aa (collect_one-IsMap u e h)

get-sort_insert :
    (a : Addr) (e : RequestAddress) (aa : RequestAddresses)
    → Map.get Addr-discrete e.0 aa ≡ none
    → Map.get Addr-discrete a (sort_insert e aa) ≡ Map.get Addr-discrete a (e ∷ aa)
unfolding sort_insert Map.get
get-sort_insert a (b, p) [] h = refl
get-sort_insert a (b, p) ((c, q) ∷ aa) h = ground (arith, get-sort_insert a (b, p) aa)

sort_insert-IsMap :
    (e : RequestAddress) (aa : RequestAddresses)
    → Map.IsMap Addr-discrete (e ∷ aa)
    → Map.IsMap Addr-discrete (sort_insert e aa)
unfolding sort_insert Map.get
sort_insert-IsMap (b, p) [] h = h
sort_insert-IsMap (b, p) ((c, q) ∷ aa) h =
    ground (arith, sort_insert-IsMap (b, p) aa, get-sort_insert c (b, p) aa)

get-sort :
    (a : Addr) (aa : RequestAddresses)
    → Map.IsMap Addr-discrete aa
    → (Map.get Addr-discrete a (sort aa) ≡ Map.get Addr-discrete a aa)
      × Map.IsMap Addr-discrete (sort aa)
unfolding sort Map.get
get-sort a [] h = (refl, tt)
get-sort a ((b, p) ∷ aa) h = ground (
  arith,
  get-sort a aa h.1,
  get-sort b aa h.1,
  get-sort_insert a (b, p) (sort aa),
  sort_insert-IsMap (b, p) (sort aa),
)

All-sort_insert :
    (e : RequestAddress) (aa : RequestAddresses)
    → e.1 ≡ false
    → All (λ b. b.1 ≡ false) aa
    → All (λ b. b.1 ≡ false) (sort_insert e aa)
unfolding sort_insert
All-sort_insert (b, p) [] h k = ground arith
All-sort_insert (b, p) ((c, q) ∷ aa) h k = ground (arith, All-sort_insert (b, p) aa)

sort_insert-ProvidedFirst :
    (e : RequestAddress) (aa : RequestAddresses)
    → ProvidedFirst aa
    → ProvidedFirst (sort_insert e aa)
unfolding sort_insert less
sort_insert-ProvidedFirst (b, p) [] h = ground arith
sort_insert-ProvidedFirst (b, false) ((c, false) ∷ aa) h = (λ _. (refl, h.0 refl), h)
sort_insert-ProvidedFirst (b, false) ((c, true) ∷ aa) h =
    (λ e. cc, sort_insert-ProvidedFirst (b, false) aa h.1)
sort_insert-ProvidedFirst (b, true) ((c, false) ∷ aa) h = (λ e. cc, h)
sort_insert-ProvidedFirst (b, true) ((c, true) ∷ aa) h = (λ e. cc, h)

sort-ProvidedFirst : (aa : RequestAddresses) → ProvidedFirst (sort aa)
unfolding sort
sort-ProvidedFirst [] = tt
sort-ProvidedFirst (a ∷ aa) = sort_insert-ProvidedFirst a (sort aa) (sort-ProvidedFirst aa)

length-sort_insert :
    (e : RequestAddress) (aa : RequestAddresses) → length (sort_insert e aa) ≡ length aa + 1
unfolding sort_insert
length-sort_insert e [] = omega arith
length-sort_insert e (a ∷ aa) = ground (arith, length-sort_insert e aa)

length-sort : (aa : RequestAddresses) → length (sort aa) ≡ length aa
unfolding sort
length-sort [] = refl
length-sort (a ∷ aa) = omega (arith, length-sort aa, length-sort_insert a (sort aa))

-- What `get` finds bounds the entries of a map.
All-get :
    (P : RequestAddress → Type 0) (m : Map Addr Bool)
    → Map.IsMap Addr-discrete m
    → ((a : Addr) (p : Bool) → Map.get Addr-discrete a m ≡ some p → P (a, p))
    → All P m
unfolding Map.get
All-get P [] u h = tt
All-get P ((a, p) ∷ m) u h = (h a p (ground arith), All-get P m u.1 (λ b q e. h b q (shadow b q e)))
  where
    shadow :
        (b : Addr) (q : Bool)
        → Map.get Addr-discrete b m ≡ some q
        → Map.get Addr-discrete b ((a, p) ∷ m) ≡ some q
    shadow b q e = ground (arith, u.0)

flag_of-accepted :
    (ig : Bool) (a : Addr) (p : Bool) (aa : RequestAddresses)
    → flag_of ig a aa ≡ some p
    → is_accepted ig (a, p) ≡ true
unfolding flag_of is_accepted is_valid
flag_of-accepted ig a p [] h = cc
flag_of-accepted ig a p ((b, q) ∷ aa) h = ground (arith, flag_of-accepted ig a p aa)

-- What `sanitize` answers: the addresses are distinct, each is accepted and carries the merged flag
-- of its entries in the request, none is lost, and those that the client provided come first.
pub record IsSanitized (ig : Bool) (aa : RequestAddresses) (r : RequestAddresses × Bool)
    : Type 0 where
  pub distinct : Map.IsMap Addr-discrete r.0
  pub flags : (a : Addr) → Map.get Addr-discrete a r.0 ≡ flag_of ig a aa
  pub accepted : All (λ e. is_accepted ig e ≡ true) r.0
  pub ordered : ProvidedFirst r.0
  pub answer : r.1 ≡ ltb 0 (length r.0)

short-ProvidedFirst : (aa : RequestAddresses) → ltb 1 (length aa) ≡ false → ProvidedFirst aa
short-ProvidedFirst [] h = tt
short-ProvidedFirst (a ∷ []) h = (λ e. tt, tt)
short-ProvidedFirst (a ∷ b ∷ aa) h = absurd (ground arith)

listing : RequestAddresses → RequestAddresses
listing l = if ltb 1 (length l) then sort l else l

record IsListing (l m : RequestAddresses) : Type 0 where
  distinct : Map.IsMap Addr-discrete m
  same : (a : Addr) → Map.get Addr-discrete a m ≡ Map.get Addr-discrete a l
  ordered : ProvidedFirst m
  size : length m ≡ length l

listing-IsListing : (l : RequestAddresses) → Map.IsMap Addr-discrete l → IsListing l (listing l)
unfolding listing
listing-IsListing l u = elim (Bool-cases (ltb 1 (length l))) [
  | inl long ↦ rw long (record {
    distinct = (get-sort no_addr l u).1;
    same = λ a. (get-sort a l u).0;
    ordered = sort-ProvidedFirst l;
    size = length-sort l;
  })
  | inr short ↦ rw short (record {
    distinct = u;
    same = λ a. refl;
    ordered = short-ProvidedFirst l short;
    size = refl;
  })
]

-- Whatever the order in which the map of unique addresses is visited, as long as each entry is met
-- once, `sanitize` returns the distinct accepted addresses of the request, those that the client
-- provided first, and says whether there is one.
pub sanitize-IsSanitized :
    (range : Map Addr Bool → Map Addr Bool)
    → IsRange range
    → (ig : Bool) (aa : RequestAddresses) → IsSanitized ig aa (sanitize range aa ig)
unfolding sanitize listing
sanitize-IsSanitized range r ig [] = record {
  distinct = tt;
  flags = λ a. unfold flag_of Map.get in refl;
  accepted = tt;
  ordered = tt;
  answer = refl;
}
sanitize-IsSanitized range r ig (e ∷ aa) = record {
  distinct = l.distinct;
  flags = flags;
  accepted = All-get _ _ l.distinct (λ a p h. flag_of-accepted ig a p (e ∷ aa) (sym (flags a) ∙ h));
  ordered = l.ordered;
  answer = ap (ltb 0) (sym (l.size ∙ u.1));
}
  where
    unique : Map Addr Bool
    unique = collect ig [] (e ∷ aa)

    u :
        Map.IsMap Addr-discrete (range unique)
        × (length (range unique) ≡ length unique)
        × ((a : Addr) → Map.get Addr-discrete a (range unique) ≡ Map.get Addr-discrete a unique)
    u = r unique (collect-IsMap ig [] (e ∷ aa) tt)

    l : IsListing (range unique) (listing (range unique))
    l = listing-IsListing (range unique) u.0

    flags : (a : Addr) → Map.get Addr-discrete a (listing (range unique)) ≡ flag_of ig a (e ∷ aa)
    flags a = l.same a ∙ u.2 a ∙ get-collect ig a [] (e ∷ aa) ∙ nothing_first a
      where
        nothing_first :
            (b : Addr)
            → merge (Map.get Addr-discrete b []) (flag_of ig b (e ∷ aa)) ≡ flag_of ig b (e ∷ aa)
        nothing_first b = unfold Map.get in refl
