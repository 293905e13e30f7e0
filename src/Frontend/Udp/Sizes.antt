-- ===== src/Frontend/Udp/Sizes.antt =====
-- frontend/udp/writer.go: the size of an announce response.
use mochi.Base.{
  ℕ, ◌^◌, ◌+◌, ◌*◌, ◌≡◌, refl, Bool, true, false, List, [], ◌∷◌, ◌++◌, arith, if◌then◌else◌, length,
  length-append, All,
}
use mochi.Base.Bytes.{Bytes, put_uint16, put_uint32, put_uint64}
use mochi.Netip.{Addr, no_addr, ip4, ip6, is4, is6, as_slice}
use mochi.Bittorrent.Peer.{Peer, addr}
use mochi.Bittorrent.Request.{AnnounceResponse}
use mochi.Frontend.Udp.Parser.{announce_action_id, announce_v6_action_id}
use mochi.Base.Int.{to_uint, quot}
use mochi.Frontend.Udp.Writer.{write_header, write_peers, write_announce_response, second}

pub length-as_slice4 : (a : Addr) → is4 a ≡ true → length (as_slice a) ≡ 4
unfolding as_slice put_uint32
length-as_slice4 (ip4 a) h = refl
length-as_slice4 no_addr h = absurd (cc)
length-as_slice4 (ip6 a z) h = absurd (cc)

pub length-as_slice6 : (a : Addr) → is6 a ≡ true → length (as_slice a) ≡ 16
unfolding as_slice put_uint64 put_uint32
length-as_slice6 (ip6 a z) h = refl
length-as_slice6 no_addr h = absurd (cc)
length-as_slice6 (ip4 a) h = absurd (cc)

pub length-put_uint16 : (n : ℕ) → length (put_uint16 n) ≡ 2
unfolding put_uint16
length-put_uint16 n = refl

length-put_uint32 : (n : ℕ) → length (put_uint32 n) ≡ 4
unfolding put_uint32
length-put_uint32 n = refl

length-cons_peer :
    (p : Peer) (rest : Bytes)
    → length (as_slice (addr p) ++ (put_uint16 p.port ++ rest))
      ≡ length (as_slice (addr p)) + 2 + length rest
length-cons_peer p rest = omega (
  arith,
  length-append (as_slice (addr p)) (put_uint16 p.port ++ rest),
  length-append (put_uint16 p.port) rest,
  length-put_uint16 p.port,
)

length-write_peers4 :
    (ps : List Peer) → All (λ p. is4 (addr p) ≡ true) ps → length (write_peers ps) ≡ 6 * length ps
unfolding write_peers
length-write_peers4 [] h = refl
length-write_peers4 (p ∷ ps) h = omega (
  arith,
  length-cons_peer p (write_peers ps),
  length-as_slice4 (addr p) h.0,
  length-write_peers4 ps h.1,
)

length-write_peers6 :
    (ps : List Peer) → All (λ p. is6 (addr p) ≡ true) ps → length (write_peers ps) ≡ 18 * length ps
unfolding write_peers
length-write_peers6 [] h = refl
length-write_peers6 (p ∷ ps) h = omega (
  arith,
  length-cons_peer p (write_peers ps),
  length-as_slice6 (addr p) h.0,
  length-write_peers6 ps h.1,
)

length-write_header :
    (tx_id : Bytes) (action : ℕ) → length (write_header tx_id action) ≡ 4 + length tx_id
unfolding write_header
length-write_header tx_id action =
    omega (arith, length-append (put_uint32 action) tx_id, length-put_uint32 action)

length-four : (n : ℕ) (rest : Bytes) → length (put_uint32 n ++ rest) ≡ 4 + length rest
length-four n rest = omega (arith, length-append (put_uint32 n) rest, length-put_uint32 n)

length-framed :
    (tx_id : Bytes) (action a b c : ℕ) (rest : Bytes)
    → length
        (write_header tx_id action ++ (put_uint32 a ++ (put_uint32 b ++ (put_uint32 c ++ rest))))
      ≡ 16 + length tx_id + length rest
length-framed tx_id action a b c rest = omega (
  arith,
  length-append (write_header tx_id action)
      (put_uint32 a ++ (put_uint32 b ++ (put_uint32 c ++ rest))),
  length-write_header tx_id action,
  length-four a (put_uint32 b ++ (put_uint32 c ++ rest)),
  length-four b (put_uint32 c ++ rest),
  length-four c rest,
)

-- Under a transaction ID of four bytes and a response whose peers stand in the lists of their families, the
-- packet written has twenty bytes and then six for every IPv4 peer, or eighteen for every IPv6 peer,
-- whichever family is written, whatever the action.
pub length-write_announce_response :
    (tx_id : Bytes) (resp : AnnounceResponse) (v6_action v6_peers : Bool)
    → length tx_id ≡ 4
    → All (λ p. is4 (addr p) ≡ true) resp.ipv4_peers
    → All (λ p. is6 (addr p) ≡ true) resp.ipv6_peers
    → length (write_announce_response tx_id resp v6_action v6_peers)
      ≡ 20 + (if v6_peers then 18 * length resp.ipv6_peers else 6 * length resp.ipv4_peers)
unfolding write_announce_response
length-write_announce_response tx_id resp v6_action true t h4 h6 = omega (
  arith,
  t,
  length-framed tx_id (if v6_action then announce_v6_action_id else announce_action_id)
      (to_uint (2 ^ 32) (quot resp.interval second)) resp.incomplete resp.complete
      (write_peers resp.ipv6_peers),
  length-write_peers6 resp.ipv6_peers h6,
)
length-write_announce_response tx_id resp v6_action false t h4 h6 = omega (
  arith,
  t,
  length-framed tx_id (if v6_action then announce_v6_action_id else announce_action_id)
      (to_uint (2 ^ 32) (quot resp.interval second)) resp.incomplete resp.complete
      (write_peers resp.ipv4_peers),
  length-write_peers4 resp.ipv4_peers h4,
)
