-- ===== src/Storage/Redis/Packing.antt =====
-- storage/redis/storage.go: a peer that is packed is unpacked as it was.
use mochi.Base.{
  ℕ, ◌+◌, ◌^◌, ◌<◌, ◌≤◌, ◌≡◌, refl, sym, ap, ◌∙◌, false, some, [], ◌∷◌, ◌++◌, arith, ltb, ◌==◌,
  length, take, drop, length-append, ◌/◌, inl, inr, Bool-cases, take-append_exact,
  drop-append_exact, take_of_length-le,
}
use mochi.Base.Bytes.{
  Bytes, from_be, put_uint16, put_uint32, put_uint64, uint_be, uint_be-put_uint16,
  uint_be-put_uint32,
}
use mochi.Netip.{Addr, no_addr, ip4, ip6, as_slice, addr_from_slice, unmap, put_uint128}
use mochi.Result.{ok}
use mochi.Bittorrent.Peer.{Peer, addr, new_peer_id}
use mochi.Storage.Redis.{with_addr, pack_peer, unpack_peer, fixed_id}

-- an address as 32 or 128 bits, with no zone
abbrev pub without_zone : Addr → Addr
without_zone no_addr = no_addr
without_zone (ip4 a) = ip4 a
without_zone (ip6 a z) = ip6 a []

-- A valid address, whose number fits.
abbrev pub Fits : Addr → Type 0
Fits no_addr = ⊥
Fits (ip4 a) = a < 2 ^ 32
Fits (ip6 a z) = a < 2 ^ 128

append_nil : (xs : Bytes) → xs ++ [] ≡ xs
append_nil [] = refl
append_nil (x ∷ xs) = ap (◌∷◌ x) (append_nil xs)

fixed : (id : Bytes) → length id ≡ 20 → fixed_id id ≡ id
fixed id h = rw (take_of_length-le 20 id (omega (arith, h)), h) (append_nil id)

uint_be-put_uint128 : (a : ℕ) → a < 2 ^ 128 → uint_be (put_uint128 a) ≡ a
unfolding from_be put_uint64 put_uint32
uint_be-put_uint128 a h = omega arith

-- what is read from the slice of a valid address
pub addr_from_slice-as_slice :
    (a : Addr)
    → Fits a
    → (addr_from_slice (as_slice a) ≡ some (without_zone a)) × (4 ≤ length (as_slice a))
unfolding addr_from_slice as_slice put_uint32 put_uint64
addr_from_slice-as_slice (ip4 a) h = (ap (λ v. some (ip4 v)) (uint_be-put_uint32 a h), omega arith)
addr_from_slice-as_slice (ip6 a z) h =
    (ap (λ v. some (ip6 v [])) (uint_be-put_uint128 a h), omega arith)
addr_from_slice-as_slice no_addr h = absurd h

unmap-unmap : (a : Addr) → unmap (without_zone (unmap a)) ≡ without_zone (unmap a)
unfolding unmap
unmap-unmap no_addr = refl
unmap-unmap (ip4 a) = refl
unmap-unmap (ip6 a z) = elim (Bool-cases (a / 2 ^ 32 == 0xffff)) [
  | inl e ↦ rw e refl
  | inr e ↦ rw e (rw e refl)
]

unpack_peer-parts :
    (id port a : Bytes)
    → length id ≡ 20
    → length port ≡ 2
    → 4 ≤ length a
    → unpack_peer (id ++ (port ++ a)) ≡ with_addr id (uint_be port) (addr_from_slice a)
unfolding unpack_peer new_peer_id
unpack_peer-parts id port a twenty two four =
    let l : ltb (length (id ++ (port ++ a))) 26 ≡ false =
      ground (arith, length-append id (port ++ a), length-append port a) in
    let t : take 20 (id ++ (port ++ a)) ≡ id = take-append_exact 20 id (port ++ a) (sym twenty) in
    let d : (n k : ℕ) → n ≡ 20 + k → drop n (id ++ (port ++ a)) ≡ drop k (port ++ a) =
      λ n k e. drop-append_exact n k id (port ++ a) (omega (arith, e, twenty)) in
    rw
      (
        l,
        t,
        d 20 0 refl,
        d 22 2 refl,
        take-append_exact 2 port a (sym two),
        drop-append_exact 2 0 port a (omega (arith, two)),
        twenty,
      )
      refl

-- A peer with an identifier of 20 bytes, a port of 16 bits and a valid address is unpacked, after it is
-- packed, as it was, but for the form of its address: unmapped, and without its zone.
pub unpack_peer-pack_peer :
    (p : Peer)
    → length p.id ≡ 20
    → p.port < 2 ^ 16
    → Fits (addr p)
    → unpack_peer (pack_peer p) ≡ ok (record p { ip = without_zone (addr p) })
unfolding pack_peer addr
unpack_peer-pack_peer p twenty port fits =
    let (e, l) = addr_from_slice-as_slice (addr p) fits in
    rw (fixed p.id twenty) (
      unpack_peer-parts p.id (put_uint16 p.port) (as_slice (addr p)) twenty
        (unfold put_uint16 in refl) l
      ∙ (rw (uint_be-put_uint16 p.port port, e, unmap-unmap p.ip) refl))
