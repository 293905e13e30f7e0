-- ===== src/Middleware/Answer.antt =====
-- middleware/hooks.go: what `appendPeers` puts into a response.
use mochi.Base.{
  ℕ, ◌+◌, ◌-◌, ◌≤◌, ◌<◌, ◌≡◌, ◌≢◌, refl, Bool, true, false, List, [], ◌∷◌, ◌++◌, arith, length, All,
  ◌==◌, Bool-cases, inl, inr, ◌⊎◌, subst, length-append, length-take,
}
use mochi.Base.Map
use mochi.Base.Map.{Map, get-insert}
use mochi.Netip.{is4, is6}
use mochi.Result.{Gives, is_resource_missing, Result, ok, err, panic}
use mochi.Bittorrent.Peer.{Peer, Peer-discrete, addr}
use mochi.Bittorrent.Hash.{InfoHash}
use mochi.Bittorrent.Request.{AnnounceRequest, AnnounceResponse, get_first, peers}
use mochi.Middleware.Storage.{PeerStorage, and_then, or_missing}
use mochi.Middleware.Response.{mark, split, fetch, fetch_args, preset, trim, finish, append_peers}

abbrev pub Distinct : List Peer → Type 0
Distinct [] = Unit
Distinct (p ∷ ps) = All (λ q. q ≢ p) ps × Distinct ps

abbrev Unmarked : Map Peer (Unit {0}) → List Peer → Type 0
Unmarked unique = All (λ q. Map.contains Peer-discrete q unique ≡ false)

abbrev IsSplit : Map Peer (Unit {0}) → List Peer → List Peer × List Peer → Type 0
IsSplit unique ps (v4, v6) =
    (Unmarked unique v4 × (Distinct v4 × All (λ q. is4 (addr q) ≡ true) v4))
    × ((Unmarked unique v6 × (Distinct v6 × All (λ q. is6 (addr q) ≡ true) v6))
        × (length v4 + length v6 ≤ length ps))

contains-insert :
    (q p : Peer) (unique : Map Peer (Unit {0}))
    → Map.contains Peer-discrete q (Map.insert Peer-discrete p tt unique) ≡ false
    → (q ≢ p) × (Map.contains Peer-discrete q unique ≡ false)
contains-insert q p unique h = ground (arith, get-insert Peer-discrete q p tt unique)

unmark :
    (p : Peer) (unique : Map Peer (Unit {0})) (ps : List Peer)
    → Unmarked (Map.insert Peer-discrete p tt unique) ps
    → All (λ q. q ≢ p) ps × Unmarked unique ps
unmark p unique [] h = (tt, tt)
unmark p unique (q ∷ ps) (h, hs) =
    let (a, b) = contains-insert q p unique h in
    let (fresh, rest) = unmark p unique ps hs in ((a, fresh), (b, rest))

module _ (unique : Map Peer (Unit {0})) (p : Peer) (ps : List Peer) where
  longer : (r : List Peer × List Peer) → IsSplit unique ps r → IsSplit unique (p ∷ ps) r
  longer (v4, v6) (h, (k, l)) = (h, (k, omega (arith, l)))

  IsSplit-six :
      (r : List Peer × List Peer)
      → Map.contains Peer-discrete p unique ≡ false
      → is6 (addr p) ≡ true
      → IsSplit (Map.insert Peer-discrete p tt unique) ps r
      → IsSplit unique (p ∷ ps) (r.0, p ∷ r.1)
  IsSplit-six (v4, v6) new six ((u4, h4), ((u6, (d6, f6)), l)) =
      let m6 = unmark p unique v6 u6 in
      (((unmark p unique v4 u4).1, h4), (((new, m6.1), ((m6.0, d6), (six, f6))), omega (arith, l)))

  IsSplit-four :
      (r : List Peer × List Peer)
      → Map.contains Peer-discrete p unique ≡ false
      → is4 (addr p) ≡ true
      → IsSplit (Map.insert Peer-discrete p tt unique) ps r
      → IsSplit unique (p ∷ ps) (p ∷ r.0, r.1)
  IsSplit-four (v4, v6) new four ((u4, (d4, f4)), ((u6, h6), l)) =
      let m4 = unmark p unique v4 u4 in
      (((new, m4.1), ((m4.0, d4), (four, f4))), (((unmark p unique v6 u6).1, h6), omega (arith, l)))

split-IsSplit :
    (unique : Map Peer (Unit {0})) (ps : List Peer) → IsSplit unique ps (split unique ps)
unfolding split mark
split-IsSplit unique [] = ((tt, (tt, tt)), ((tt, (tt, tt)), omega arith))
split-IsSplit unique (p ∷ ps) = elim (Bool-cases (Map.contains Peer-discrete p unique)) [
  | inl there ↦ rw there (longer unique p ps (split unique ps) (split-IsSplit unique ps))
  | inr new ↦ elim (Bool-cases (is6 (addr p))) [
    | inl six ↦
        rw (new, six)
          (IsSplit-six unique p ps (split (Map.insert Peer-discrete p tt unique) ps) new six
            (split-IsSplit (Map.insert Peer-discrete p tt unique) ps))
    | inr not_six ↦ elim (Bool-cases (is4 (addr p))) [
      | inl four ↦
          rw (new, not_six, four)
            (IsSplit-four unique p ps (split (Map.insert Peer-discrete p tt unique) ps) new four
              (split-IsSplit (Map.insert Peer-discrete p tt unique) ps))
      | inr not_four ↦
          rw (new, not_six, not_four)
            (longer unique p ps (split unique ps) (split-IsSplit unique ps))
    ]
  ]
]

-- The storage answers with as many peers as are wanted at most.
pub record IsLimited {S : Type 0} (store : PeerStorage S) : Type 0 where
  pub limited :
      (ih : InfoHash) (fs : Bool) (n : ℕ) (v6 : Bool) (s : S)
      → 0 < n
      → Gives (λ ps. length ps ≤ n) (store.announce_peers ih fs n v6 s).0

module _ {S : Type 0} (store : PeerStorage S) (l : IsLimited store) (seeding : Bool)
    (want : ℕ) where
  fetch_next :
      (args : List (InfoHash × Bool)) (found : List Peer) (left : ℕ) (r : Result (List Peer) × S)
      → ((f : List Peer) (k : ℕ) (s : S)
          → length f + k ≤ want
          → Gives (λ ps. length ps ≤ want) (fetch store seeding args f k s).0)
      → length found + left ≤ want
      → Gives (λ ps. length ps ≤ left) r.0
      → Gives
          (λ ps. length ps ≤ want)
          (and_then
            (or_missing [] r)
            (λ ps s. fetch store seeding args (found ++ ps) (left - length ps) s)).0
  unfolding or_missing
  fetch_next args found left (ok ps, s) rest h k =
      rest (found ++ ps) (left - length ps) s (omega (arith, length-append found ps, h, k))
  fetch_next args found left (err e, s) rest h k = elim (Bool-cases (is_resource_missing e)) [
    | inl missing ↦
        rw missing (rest (found ++ []) (left - 0) s (omega (arith, length-append found [], h)))
    | inr other ↦ rw other tt
  ]
  fetch_next args found left (panic, s) rest h k = tt

  fetch-limited :
      (args : List (InfoHash × Bool)) (found : List Peer) (left : ℕ) (s : S)
      → length found + left ≤ want
      → Gives (λ ps. length ps ≤ want) (fetch store seeding args found left s).0
  unfolding fetch
  fetch-limited [] found left s h = omega (arith, h)
  fetch-limited ((ih, v6) ∷ args) found left s h = elim (Bool-cases (left == 0)) [
    | inl enough ↦ rw enough (omega (arith, h))
    | inr more ↦ rw more (
        fetch_next args found left (store.announce_peers ih seeding left v6 s) (fetch-limited args)
          h (l.limited ih seeding left v6 s (ground arith)))
  ]

-- What holds of the peers of a response: each is there once and in the list of its family, and there are as
-- many as the request wants at most, or they are the peer of the request itself, at its addresses.
pub record IsAnswer (req : AnnounceRequest) (resp' : AnnounceResponse) : Type 0 where
  pub distinct_ipv4 : Distinct resp'.ipv4_peers
  pub distinct_ipv6 : Distinct resp'.ipv6_peers
  pub ipv4 : All (λ p. is4 (addr p) ≡ true) resp'.ipv4_peers
  pub ipv6 : All (λ p. is6 (addr p) ≡ true) resp'.ipv6_peers
  pub limited :
      (length resp'.ipv4_peers + length resp'.ipv6_peers ≤ req.num_want)
      ⊎ ((resp'.ipv4_peers, resp'.ipv6_peers) ≡ split [] (peers req.peer))

-- The answer that a hook makes of a response, whose intervals it keeps.
abbrev pub Answers : AnnounceRequest → AnnounceResponse → AnnounceResponse → Type 0
Answers req resp resp' =
    IsAnswer req resp'
    × ((resp'.interval ≡ resp.interval) × (resp'.min_interval ≡ resp.min_interval))

finish-Answers :
    (req : AnnounceRequest) (resp : AnnounceResponse) (found : List Peer)
    → length found ≤ req.num_want
    → Answers req resp (finish req resp found)
unfolding finish
finish-Answers req resp [] h =
    let (f4, (f6, n)) = split-IsSplit [] (peers req.peer) in
    (
      record {
        distinct_ipv4 = f4.1.0;
        distinct_ipv6 = f6.1.0;
        ipv4 = f4.1.1;
        ipv6 = f6.1.1;
        limited = inr refl;
      },
      (refl, refl),
    )
finish-Answers req resp (p ∷ ps) h =
    let (f4, (f6, n)) = split-IsSplit [] (p ∷ ps) in
    (
      record {
        distinct_ipv4 = f4.1.0;
        distinct_ipv6 = f6.1.0;
        ipv4 = f4.1.1;
        ipv6 = f6.1.1;
        limited = inl (omega (arith, n, h));
      },
      (refl, refl),
    )

trim-le : (want : ℕ) (found : List Peer) → length (trim want found).0 + (trim want found).1 ≤ want
unfolding trim
trim-le want found = ground (arith, length-take want found)

module _ {S : Type 0} (store : PeerStorage S) (l : IsLimited store) (req : AnnounceRequest)
    (resp : AnnounceResponse) where
  finished :
      (r : Result (List Peer) × S)
      → Gives (λ ps. length ps ≤ req.num_want) r.0
      → Gives
          (Answers req resp)
          (and_then {B = AnnounceResponse} r (λ all s'. (ok (finish req resp all), s'))).0
  finished (ok all, s) h = finish-Answers req resp all h
  finished (err e, s) h = tt
  finished (panic, s) h = tt

  pub append_peers-Gives : (s : S) → Gives (Answers req resp) (append_peers store req resp s).0
  unfolding append_peers
  append_peers-Gives s =
      let v6_first = is6 (get_first req.peer.addresses) in
      finished _ (
        fetch-limited store l (req.left == 0) req.num_want (fetch_args req.info_hash v6_first)
          (trim req.num_want (preset v6_first resp)).0 (trim req.num_want (preset v6_first resp)).1
          s (trim-le req.num_want (preset v6_first resp)))

  -- Over a storage that answers with as many peers as it is asked for at most, the response that is made
  -- for an announce holds distinct peers, each in the list of its family, as many as the request wants at
  -- most, or else just the announcing peer at its own addresses; its intervals are kept.
  pub append_peers-Answers :
      (s s' : S) (resp' : AnnounceResponse)
      → append_peers store req resp s ≡ (ok resp', s')
      → Answers req resp resp'
  append_peers-Answers s s' resp' h =
      subst (λ r. Gives (Answers req resp) r.0) h (append_peers-Gives s)
