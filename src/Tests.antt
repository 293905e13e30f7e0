-- ===== src/Tests.antt =====
-- Runs of the storage, the requests and the UDP frontend at concrete values.
mod Middleware
mod Jwt
mod Redis
mod Http
mod Remote
mod Upkeep
mod Approval
mod Udp
use mochi.Base.{
  ◌*◌, if◌then◌else◌, ℕ, zero, suc, ◌+◌, ◌^◌, ◌≤◌, ◌<◌, ◌≡◌, ◌≢◌, ◌⊎◌, ◌↔◌, inl, refl, Bool, true,
  false, none, some, List, [], ◌∷◌, ◌++◌, arith, length, replicate, take,
}
use mochi.Base.Bytes.{Bytes, AreBytes, Bytes-discrete, put_uint16, put_uint32, put_uint64, from_be}
use mochi.Base.Map
use mochi.Base.Map.{Map}
use mochi.Base.Int.{pos, negsuc}
use mochi.Netip
use mochi.Netip.{is4, is6, Addr, ip4, ip6}
use mochi.Result.{ok, err, panic, codes, err_unknown_event}
use mochi.Bittorrent.Event.{Event, nothing, started, to_lower, string, new_event, new_event_lem}
use mochi.Bittorrent.Peer.{addr, Peer}
use mochi.Bittorrent.Hash
use mochi.Bittorrent.Hash.{
  InfoHash, IsInfoHash, new_info_hash, new_info_hash-IsInfoHash, new_info_hash-string,
}
use mochi.Bittorrent.Request.{
  AnnounceResponse, RequestAddresses, AnnounceRequest, ScrapeRequest, sanitize, collect_one,
  is_accepted,
}
use mochi.Bittorrent.Request
use mochi.Bittorrent.Request.Addresses.{IsRange, IsSanitized, sanitize-IsSanitized}
use mochi.Bittorrent.Sanitize.{
  IsSound, limit_num_want, sanitize_announce, sanitize_scrape, sanitize_announce-IsSound,
  sanitize_scrape-prefix,
}
use mochi.Storage.Memory.{
  PeerStore, Shard, Swarm, new_peer_storage, validate, shard_index, select_shard,
}
use mochi.Storage.Memory.Read.{announce_peers}
use mochi.Storage.Memory.View.{Role}
use mochi.Storage.Memory.Select.{shard_index_halves}
use mochi.Storage.Memory.Refines.{IsWell, store_view}
use mochi.Storage.Memory.Fresh.{new_peer_storage-IsWell}
use mochi.Storage.Memory.Announce.{offered, announce_peers-take}
use mochi.Storage.Memory.Tracker.{
  Call, seed, leech, graduate, unseed, collect, run, spec_run, run-refines,
}
use mochi.Storage.Config.{Config, IsPositive, sanitize_gc_config, sanitize_gc_config-IsPositive}
use mochi.Frontend.Udp.Writer.{write_announce_response}
use mochi.Frontend.Udp.Sizes.{length-write_announce_response}
use mochi.Frontend.Options.{ParseOptions}
use mochi.Frontend.Udp.ConnectionId.{ConnectionIdGenerator, generate, validate-generate}
use mochi.Frontend.Udp.ConnectionId
use mochi.Frontend.Udp.Parser.{parse_announce, parse_scrape}
use mochi.Frontend.Udp.Safety.{parse_announce-ne-panic, parse_scrape-ne-panic}

abbrev visited : Map Addr Bool → Map Addr Bool
visited m = m

pub visited-IsRange : IsRange visited
visited-IsRange m h = (h, refl, λ a. refl)

abbrev hash : InfoHash
hash = replicate 20 7

long : 4 ≤ length hash
long = omega arith

abbrev alice : Peer
alice = record { id = replicate 20 1; ip = ip4 0x0102_0304; port = 6881 }

abbrev bob : Peer
bob = record { id = replicate 20 2; ip = ip6 9 []; port = 51413 }

abbrev calls : List Call
calls =
    leech (pos 100) hash alice
    ∷ graduate (pos 160) hash alice
    ∷ seed (pos 170) hash bob
    ∷ collect (pos 165)
    ∷ unseed hash bob
    ∷ []

abbrev store : PeerStore
store = new_peer_storage (pos 1)

small : validate (pos 1) < 2 ^ 31
unfolding validate
small = omega arith

store-IsWell : IsWell store
store-IsWell = (new_peer_storage-IsWell (pos 1) small).0

store_open : store.closed ≡ false
store_open = (new_peer_storage-IsWell (pos 1) small).1

new_peer_storage-IsWell_example :
    IsWell store
    × (store.closed ≡ false)
    × ((r : Role) (ih : InfoHash) (p : Peer) → store_view store r ih p ≡ none)
new_peer_storage-IsWell_example = new_peer_storage-IsWell (pos 1) small

run-refines_example :
    IsWell (run calls store)
    × ((run calls store).closed ≡ false)
    × (store_view (run calls store) ≡ spec_run calls (store_view store))
run-refines_example =
    run-refines calls store (long, (long, (long, (tt, (long, tt)))))
      (new_peer_storage-IsWell (pos 1) small).0 (new_peer_storage-IsWell (pos 1) small).1

abbrev swarm : Swarm
swarm = record { seeders = (bob, pos 170) ∷ []; leechers = (alice, pos 100) ∷ [] }

abbrev filled : Shard
filled = record { swarms = (hash, swarm) ∷ []; num_seeders = 1; num_leechers = 1 }

abbrev filled_store : PeerStore
filled_store = record { closed = false; shards = filled ∷ filled ∷ [] }

filled_select : select_shard filled_store hash false ≡ ok (0, filled)
unfolding select_shard shard_index from_be
filled_select = refl

announce_peers-take_example : announce_peers (λ ks. ks) hash false 2 false filled_store ≡ (
  ok (elim (Map.get Bytes-discrete hash filled.swarms) [
    | none ↦ []
    | some sw ↦ take 2 (offered (λ ks. ks) sw false)
  ]),
  filled_store,
)
announce_peers-take_example =
    announce_peers-take (λ ks. ks) hash false 2 false filled_store (omega arith) refl filled_select

abbrev addresses : RequestAddresses
addresses =
    (ip4 0x0102_0304, false)
    ∷ (ip4 0x0102_0304, true)
    ∷ (ip4 0, true)
    ∷ (ip4 0x0506_0708, false)
    ∷ []

sanitize-IsSanitized_example : IsSanitized true addresses (sanitize visited addresses true)
sanitize-IsSanitized_example = sanitize-IsSanitized visited visited-IsRange true addresses

abbrev announce : RequestAddresses → ℕ → AnnounceRequest
announce aa n = record {
  event = started;
  info_hash = hash;
  event_provided = true;
  num_want_provided = true;
  num_want = n;
  left = 1;
  downloaded = 0;
  uploaded = 0;
  peer = record { id = replicate 20 1; port = 6881; addresses = aa };
  params = λ key. none;
}

abbrev one_address : RequestAddresses
one_address = (ip4 0x0102_0304, true) ∷ []

capped :
    sanitize_announce visited (announce one_address 500) 100 50 false
    ≡ ok (announce one_address 100)
unfolding sanitize_announce sanitize Request.collect collect_one limit_num_want is_accepted
    Request.is_valid Netip.is_unspecified Netip.is_multicast Netip.Addr-discrete Map.get Map.insert
capped = refl

sanitize_announce-IsSound_example :
    IsSound (announce one_address 500) (announce one_address 100) 100 50 false
sanitize_announce-IsSound_example =
    sanitize_announce-IsSound visited visited-IsRange (announce one_address 500)
      (announce one_address 100) 100 50 false capped

abbrev scrape : ℕ → ScrapeRequest
scrape n = record { addresses = one_address; info_hashes = replicate n hash; params = none }

shortened : sanitize_scrape visited (scrape 3) 2 false ≡ ok (scrape 2)
unfolding sanitize_scrape sanitize Request.collect collect_one is_accepted Request.is_valid
    Netip.is_unspecified Netip.is_multicast Netip.Addr-discrete Map.get Map.insert
shortened = refl

sanitize_scrape-prefix_example :
    ((scrape 2).info_hashes ≡ take 2 (scrape 3).info_hashes)
    × ((scrape 2).addresses ≢ [])
    × IsSanitized false (scrape 3).addresses ((scrape 2).addresses, true)
sanitize_scrape-prefix_example =
    sanitize_scrape-prefix visited visited-IsRange (scrape 3) (scrape 2) 2 false shortened

new_event_lem_example :
    ((new_event (codes "Started") ≡ ok started) ↔ (
      (to_lower (codes "Started") ≡ string started)
      ⊎ ((codes "Started" ≡ []) × (started ≡ nothing))))
    × ((new_event (codes "Started") ≡ err err_unknown_event)
        ↔ ((f : Event) → new_event (codes "Started") ≢ ok f))
new_event_lem_example = new_event_lem (codes "Started") started

raw : new_info_hash hash ≡ ok hash
unfolding new_info_hash
raw = refl

hash-AreBytes : AreBytes hash
hash-AreBytes = All-replicate 20
  where
    All-replicate : (n : ℕ) → AreBytes (replicate n 7)
    All-replicate zero = tt
    All-replicate (suc n) = (omega arith, All-replicate n)

new_info_hash-string_example :
    (new_info_hash (Hash.string hash) ≡ ok hash) × (new_info_hash hash ≡ ok hash)
new_info_hash-string_example = new_info_hash-string hash hash-AreBytes (inl refl)

-- an announce over IPv4 that ends with the option NOP and an empty piece of URL data
abbrev announce_packet : Bytes
announce_packet =
    replicate 16 0
    ++ (hash
        ++ (alice.id
            ++ (replicate 24 0
                ++ (put_uint32 2
                    ++ (replicate 8 0
                        ++ (put_uint32 30 ++ (put_uint16 6881 ++ (1 ∷ 2 ∷ 0 ∷ []))))))))

abbrev options : ParseOptions
options = record {
  allow_ip_spoofing = false;
  filter_private_ips = false;
  max_num_want = 100;
  default_num_want = 50;
  max_scrape_info_hashes = 50;
}

parse_announce-ne-panic_example :
    parse_announce
      (λ bs. bs)
      visited
      (record { packet = announce_packet; ip = alice.ip })
      false
      options
    ≢ panic
parse_announce-ne-panic_example =
    parse_announce-ne-panic (λ bs. bs) visited (record { packet = announce_packet; ip = alice.ip })
      false options

abbrev mac : Bytes → Bytes
mac bs = put_uint64 (length bs)

mac_long : (bs : Bytes) → 5 ≤ length (mac bs)
unfolding put_uint64 put_uint32
mac_long bs = omega arith

abbrev generator : ConnectionIdGenerator
generator = record { max_clock_skew = 10; s = 0 }

validate-generate_example :
    ConnectionId.validate mac generator
      (generate mac 12345 generator alice.ip 1_700_000_000).0
      alice.ip
      1_700_000_100
    ≡ ok true
validate-generate_example =
    validate-generate mac mac_long 12345 generator alice.ip 1_700_000_000 1_700_000_100 refl
      (omega arith)

abbrev response : AnnounceResponse
response = record {
  complete = 1;
  incomplete = 2;
  interval = pos 1_800_000_000_000;
  min_interval = pos 900_000_000_000;
  ipv4_peers = alice ∷ alice ∷ [];
  ipv6_peers = bob ∷ [];
}

four : is4 (addr alice) ≡ true
unfolding addr
four = refl

six : is6 (addr bob) ≡ true
unfolding addr Netip.unmap
six = refl

length-write_announce_response_example :
    length (write_announce_response (replicate 4 9) response false true)
    ≡ 20 + (if true then 18 * length response.ipv6_peers else 6 * length response.ipv4_peers)
length-write_announce_response_example =
    length-write_announce_response (replicate 4 9) response false true refl (four, (four, tt))
      (six, tt)

abbrev config : Config
config = record {
  garbage_collection_interval = negsuc 4;
  peer_lifetime = pos 7;
  prometheus_reporting_interval = pos 0;
}
