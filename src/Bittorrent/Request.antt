-- ===== src/Bittorrent/Request.antt =====
-- bittorrent/request.go: addresses of a request, requests and responses; and the interface Params of
-- bittorrent/params.go.
pub mod Addresses
use mochi.Base.{
  ℕ, ◌≡◌, Bool, true, false, ◌&&◌, ◌||◌, not, List, [], ◌∷◌, ◌++◌, map, Option, none, some,
  if◌then◌else◌, length, ltb, ite,
}
use mochi.Base.Bytes.{Bytes}
use mochi.Base.Map
use mochi.Base.Map.{Map}
use mochi.Netip
use mochi.Netip.{Addr, no_addr, ip4, Addr-discrete}
use mochi.Base.Int.{ℤ}
use mochi.Bittorrent.Event.{Event}
use mochi.Bittorrent.Peer.{PeerId, Peer}
use mochi.Bittorrent.Hash.{InfoHash}

-- The address, and whether the client provided it.
abbrev pub RequestAddress : Type 0
RequestAddress = Addr × Bool

abbrev pub RequestAddresses : Type 0
RequestAddresses = List RequestAddress

abbrev pub global_broadcast_ipv4 : Addr
global_broadcast_ipv4 = ip4 0xffff_ffff

unfoldable pub is_valid : RequestAddress → Bool
is_valid (a, provided) =
    Netip.is_valid a
    && not (
        Netip.is_unspecified a
        || Netip.is_multicast a
        || ite (Addr-discrete a global_broadcast_ipv4) true false)

-- `less aa i j` of the source, on the two addresses
unfoldable pub less : RequestAddress → RequestAddress → Bool
less (a, p) (b, q) = p && not q

unfoldable pub add : RequestAddresses → RequestAddress → RequestAddresses
add aa a = if is_valid a then aa ++ (Netip.unmap a.0, a.1) ∷ [] else aa

-- what the loop of `sanitize` lets pass
unfoldable pub is_accepted : Bool → RequestAddress → Bool
is_accepted ignore_private a =
    is_valid a && (not ignore_private || Netip.is_global_unicast a.0 && not (Netip.is_private a.0))

-- `!found || !provided && a.Provided`
abbrev improves : Option Bool → Bool → Bool
improves none p = true
improves (some provided) p = not provided && p

-- the body of the loop of `sanitize` over the addresses
unfoldable pub collect_one : Bool → Map Addr Bool → RequestAddress → Map Addr Bool
collect_one ignore_private unique (a, p) =
    if is_accepted ignore_private (a, p) && improves (Map.get Addr-discrete a unique) p
    then Map.insert Addr-discrete a p unique
    else unique

unfoldable pub collect : Bool → Map Addr Bool → RequestAddresses → Map Addr Bool
collect ignore_private unique [] = unique
collect ignore_private unique (a ∷ aa) =
    collect ignore_private (collect_one ignore_private unique a) aa

-- sort.Sort, which uses insertion for up to twelve elements
unfoldable pub sort_insert : RequestAddress → RequestAddresses → RequestAddresses
sort_insert a [] = a ∷ []
sort_insert a (b ∷ aa) = let rest = sort_insert a aa in if less b a then b ∷ rest else a ∷ b ∷ aa

unfoldable pub sort : RequestAddresses → RequestAddresses
sort [] = []
sort (a ∷ aa) = sort_insert a (sort aa)

-- `range` is the order in which Go visits the entries of the map.
unfoldable pub sanitize :
    (Map Addr Bool → Map Addr Bool) → RequestAddresses → Bool → RequestAddresses × Bool
sanitize range [] ignore_private = ([], false)
sanitize range (a ∷ aa) ignore_private =
    let unique = collect ignore_private [] (a ∷ aa) in
    let listed = range unique in
    (if ltb 1 (length listed) then sort listed else listed, ltb 0 (length unique))

unfoldable pub get_first : RequestAddresses → Addr
get_first [] = no_addr
get_first (a ∷ aa) = a.0

pub record RequestPeer : Type 0 where
  pub id : PeerId
  pub port : ℕ
  pub addresses : RequestAddresses

unfoldable pub peers : RequestPeer → List Peer
peers rp = map (λ a. record { id = rp.id; ip = a.0; port = rp.port }) rp.addresses

-- Params: GetString
abbrev pub Params : Type 0
Params = Bytes → Option Bytes

pub record AnnounceRequest : Type 0 where
  pub event : Event
  pub info_hash : InfoHash
  pub event_provided : Bool
  pub num_want_provided : Bool
  pub num_want : ℕ
  pub left : ℕ
  pub downloaded : ℕ
  pub uploaded : ℕ
  pub peer : RequestPeer
  pub params : Params

-- Durations are in nanoseconds.
pub record AnnounceResponse : Type 0 where
  pub complete : ℕ
  pub incomplete : ℕ
  pub interval : ℤ
  pub min_interval : ℤ
  pub ipv4_peers : List Peer
  pub ipv6_peers : List Peer

-- A nil `Params` is `none`.
pub record ScrapeRequest : Type 0 where
  pub addresses : RequestAddresses
  pub info_hashes : List InfoHash
  pub params : Option Params

pub record Scrape : Type 0 where
  pub info_hash : InfoHash
  pub snatches : ℕ
  pub complete : ℕ
  pub incomplete : ℕ

abbrev pub ScrapeResponse : Type 0
ScrapeResponse = List Scrape
