-- ===== src/Tests/Udp.antt =====
-- Runs of the UDP server on the memory storage at concrete values.
use mochi.Netip.{as_slice}
use mochi.Base.{
  refl, inr, length, ◌≤◌, ◌+◌, ◌/◌, ℕ, ◌<◌, ◌^◌, ◌≡◌, false, [], ◌++◌, replicate, take, drop, arith,
}
use mochi.Base.Bytes.{bytes_eq, Bytes-discrete, Bytes, put_uint32, put_uint64, uint_be}
use mochi.Base.Int.{pos}
use mochi.Result.{ok}
use mochi.Middleware.Safety.{IsOpen, IsSafeLogic, new_logic-IsSafeLogic}
use mochi.Storage.Memory.{PeerStore}
use mochi.Storage.Memory.Gc.{gc}
use mochi.Storage.Memory.Fresh.{new_peer_storage-IsWell}
use mochi.Frontend.Udp.Parser.{Request}
use mochi.Frontend.Udp.Handle.{Server, Moment, dispatch, handle_request}
use mochi.Frontend.Udp.System.{Served, handle_request-Served}
use mochi.Frontend.Udp.Reach.{
  System, Drain, running, received, Reach, here, next, receive, Reach-drains,
}
use mochi.Frontend.Udp.Writer.{second}
use mochi.Frontend.Udp.ConnectionId.{validate as validate_id}
use mochi.Frontend.Udp.ConnectionId
use mochi.Frontend.Udp.Session.{
  IsInert, issued, connecting, welcome, handle_request-IsInert, handle_request-connected,
}
use mochi.Frontend.Udp.Config
use mochi.Base.{◌≢◌, ◌-◌}
use mochi.Base.Int.{negsuc}
use mochi.Frontend.Udp.Tracker.{memory_server, gc-IsOpen}
use mochi.Tests.{store, small, alice, announce_packet, options, generator, mac, mac_long, visited}

abbrev server : Server PeerStore
server =
    memory_server (λ ks. ks) (pos 1800) (pos 900) [] [] options generator mac (λ bs. bs) visited

server-IsSafeLogic : (now : ℕ) → IsSafeLogic IsOpen (server.logic now)
unfolding memory_server
server-IsSafeLogic now = new_logic-IsSafeLogic (pos now) (λ ks. ks) (pos 1800) (pos 900) [] [] tt tt

store-IsOpen : IsOpen store
store-IsOpen = let fresh = new_peer_storage-IsWell (pos 1) small in (fresh.0, fresh.1)

abbrev announcing : Request
announcing = record { packet = announce_packet; ip = alice.ip }

abbrev moment : Moment
moment = record { now = 1_700_000_000_000_000_000; random = 12345; canceled = false }

handle_request-Served_example : Served IsOpen (handle_request server announcing moment store)
handle_request-Served_example =
    handle_request-Served IsOpen server server-IsSafeLogic announcing moment store store-IsOpen

abbrev after : System PeerStore
after = received (handle_request server announcing moment store) []

reached : Reach gc server (running store []) after
reached = next here (receive store [] announcing moment)

Reach-drains_example : (s' : PeerStore) × IsOpen s' × Drain server after (running s' [])
Reach-drains_example =
    Reach-drains IsOpen gc server server-IsSafeLogic gc-IsOpen 7 store-IsOpen reached

abbrev guessing : Request
guessing = record { packet = replicate 8 1 ++ drop 8 announce_packet; ip = alice.ip }

refused :
    validate_id server.mac server.generator
      (take 8 guessing.packet)
      guessing.ip
      (moment.now / second)
    ≡ ok false
unfolding memory_server ConnectionId.validate ConnectionId.token ConnectionId.restored put_uint64
    put_uint32 as_slice bytes_eq Bytes-discrete
refused = refl

handle_request-IsInert_example :
    IsInert guessing store (handle_request server guessing moment store)
handle_request-IsInert_example = handle_request-IsInert server guessing moment store (inr refused)

abbrev later : Moment
later = record { now = 1_700_000_060_000_000_000; random = 77; canceled = false }

server_mac_long : (bs : Bytes) → 5 ≤ length (server.mac bs)
unfolding memory_server
server_mac_long = mac_long

same_block : later.now / second / 2 ^ 16 ≡ moment.now / second / 2 ^ 16
same_block = refl

not_behind : moment.now / second < later.now / second + server.generator.max_clock_skew
unfolding memory_server
not_behind = omega arith

abbrev body : Bytes
body = drop 8 announce_packet

handle_request-connected_example :
    (handle_request server (connecting server alice.ip (replicate 4 9)) moment store
      ≡ (ok (welcome server alice.ip moment (replicate 4 9)), store))
    × (handle_request server
          (record { packet = issued server alice.ip moment ++ body; ip = alice.ip })
          later
          store
        ≡ dispatch server
            (record { packet = issued server alice.ip moment ++ body; ip = alice.ip })
            later
            (take 4 (drop 4 body))
            (issued server alice.ip moment)
            (uint_be (take 4 body))
            store)
handle_request-connected_example =
    handle_request-connected server server_mac_long alice.ip moment later (replicate 4 9) body store
      store refl (omega arith) same_block not_behind

abbrev configured : Config.Config
configured = record {
  listen = record { addr = []; reuse_port = false; workers = 4 };
  private_key = [];
  max_clock_skew = negsuc 4_999_999_999;
  parse = options;
}

has_absolute : negsuc 4_999_999_999 ≢ negsuc (2 ^ 63 - 1)
has_absolute e = let r : 4_999_999_999 ≡ 2 ^ 63 - 1 = cc in omega (arith, r)

validate-IsValid_example :
    Config.IsValid (Config.validate (replicate 32 200) configured)
    × (Config.validate (replicate 32 7) (Config.validate (replicate 32 200) configured)
        ≡ Config.validate (replicate 32 200) configured)
validate-IsValid_example =
    Config.validate-IsValid (replicate 32 200) (replicate 32 7) configured refl has_absolute
