-- ===== src/Netip.antt =====
-- Go's net/netip.Addr, of the standard library: an address is the zero value, an IPv4 address, or
-- an IPv6 address with its zone. The tests are those of Go 1.22.4 and later, which look through
-- IPv4-mapped IPv6 addresses.
use mochi.Base.{
  ℕ, ◌/◌, ◌%◌, ◌^◌, Bool, true, false, ◌&&◌, ◌||◌, not, [], ◌∷◌, ◌++◌, Option, none, some, ◌==◌,
  if◌then◌else◌, length, ℕ_discrete,
}
use mochi.Base.Bytes.{Bytes, put_uint32, put_uint64, uint_be}

pub data Addr : Type 0 where
  no_addr : Addr
  ip4 : ℕ → Addr
  ip6 : ℕ → Bytes → Addr

unfoldable pub Addr-discrete : Discrete Addr
unfolding ℕ_discrete
Addr-discrete = hlevel ℕ_discrete

abbrev pub is_valid : Addr → Bool
is_valid no_addr = false
is_valid (ip4 a) = true
is_valid (ip6 a z) = true

abbrev pub is4 : Addr → Bool
is4 (ip4 a) = true
is4 _ = false

-- Is6 holds of IPv4-mapped addresses too.
abbrev pub is6 : Addr → Bool
is6 (ip6 a z) = true
is6 _ = false

unfoldable pub is4_in6 : Addr → Bool
is4_in6 (ip6 a z) = a / 2 ^ 32 == 0xffff
is4_in6 _ = false

unfoldable pub unmap : Addr → Addr
unmap (ip6 a z) = if a / 2 ^ 32 == 0xffff then ip4 (a % 2 ^ 32) else ip6 a z
unmap a = a

abbrev is_empty : Bytes → Bool
is_empty [] = true
is_empty (b ∷ bs) = false

-- `ip == IPv4Unspecified() || ip == IPv6Unspecified()`
unfoldable pub is_unspecified : Addr → Bool
is_unspecified no_addr = false
is_unspecified (ip4 a) = a == 0
is_unspecified (ip6 a z) = a == 0 && is_empty z

unmapped_multicast : Addr → Bool
unmapped_multicast no_addr = false
unmapped_multicast (ip4 a) = a / 2 ^ 28 == 0xe
unmapped_multicast (ip6 a z) = a / 2 ^ 120 == 0xff

unfoldable pub is_multicast : Addr → Bool
unfolding unmapped_multicast unmap
is_multicast a = unmapped_multicast (unmap a)

unmapped_private : Addr → Bool
unmapped_private no_addr = false
unmapped_private (ip4 a) = a / 2 ^ 24 == 10 || a / 2 ^ 20 == 0xac1 || a / 2 ^ 16 == 0xc0a8
unmapped_private (ip6 a z) = a / 2 ^ 121 == 0x7e

unfoldable pub is_private : Addr → Bool
unfolding unmapped_private unmap
is_private a = unmapped_private (unmap a)

-- neither loopback nor multicast nor link-local unicast nor unspecified nor broadcast
unmapped_global : Addr → Bool
unmapped_global no_addr = false
unmapped_global (ip4 a) =
    not
      (a == 0 || a == 0xffffffff || a / 2 ^ 24 == 127 || a / 2 ^ 28 == 0xe || a / 2 ^ 16 == 0xa9fe)
unmapped_global (ip6 a z) =
    not (a == 0 && is_empty z || a == 1 || a / 2 ^ 120 == 0xff || a / 2 ^ 118 == 0x3fa)

unfoldable pub is_global_unicast : Addr → Bool
unfolding unmapped_global unmap
is_global_unicast a = unmapped_global (unmap a)

abbrev pub put_uint128 : ℕ → Bytes
put_uint128 a = put_uint64 (a / 2 ^ 64 % 2 ^ 64) ++ put_uint64 (a % 2 ^ 64)

-- AsSlice, which drops the zone
unfoldable pub as_slice : Addr → Bytes
unfolding put_uint32 put_uint64
as_slice no_addr = []
as_slice (ip4 a) = put_uint32 a
as_slice (ip6 a z) = put_uint128 a

-- AddrFromSlice
unfoldable pub addr_from_slice : Bytes → Option Addr
addr_from_slice bs =
    if length bs == 4
    then some (ip4 (uint_be bs))
    else if length bs == 16
    then some (ip6 (uint_be bs) [])
    else none
