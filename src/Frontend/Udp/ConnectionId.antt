-- ===== src/Frontend/Udp/ConnectionId.antt =====
-- frontend/udp/connection_id.go: connection identifiers. The keyed hash (an HMAC over xxhash, of other
-- repositories) is the parameter `mac`; times are seconds, and sums of them stay below 2 ^ 63.
use mochi.Base.{
  ℕ, ◌+◌, ◌*◌, ◌/◌, ◌%◌, ◌^◌, ◌≤◌, ◌<◌, ◌≡◌, refl, Bool, true, ◌&&◌, ◌∷◌, ◌++◌, arith, ltb,
  if_false, [], if◌then◌else◌, length, length-take, take,
}
use mochi.Base.Bytes.{Bytes, put_uint64, bytes_eq, bytes_eq_iff}
use mochi.Netip.{Addr, as_slice}
use mochi.Result.{Result, ok, panic}
use mochi.Pkg.Xorshift.{xor_shift_64_s}

-- `int64(2 * time.Minute)`, which counts nanoseconds
abbrev pub ttl : ℕ
ttl = 120_000_000_000

abbrev pub hmac_len : ℕ
hmac_len = 5

-- The fields that outlive a call; the buffers are reset by each.
pub record ConnectionIdGenerator : Type 0 where
  pub max_clock_skew : ℕ
  pub s : ℕ

module _ (mac : Bytes → Bytes) where
  -- the truncated hash of the salt, the time and the address
  unfoldable pub token : ℕ → ℕ → Addr → Bytes
  token salt ts ip = take hmac_len (mac ((salt ∷ put_uint64 ts) ++ as_slice ip))

  -- `random` is what `reset(true)` reads into the generator.
  unfoldable pub generate : ℕ → ConnectionIdGenerator → Addr → ℕ → Bytes × ConnectionIdGenerator
  generate random g ip now =
      let (r, s) = xor_shift_64_s random in
      let salt = r % 256 in
      (salt ∷ (now / 256 % 256) ∷ (now % 256) ∷ token salt now ip, record g { s = s })

  -- the time that the two bytes restore, in the block of 2 ^ 16 seconds of the current time
  unfoldable pub restored : ℕ → ℕ → ℕ → ℕ
  restored now hi lo = now / 2 ^ 16 * 2 ^ 16 + (hi * 256 + lo)

  unfoldable pub validate : ConnectionIdGenerator → Bytes → Addr → ℕ → Result Bool
  validate g (salt ∷ hi ∷ lo ∷ tag) ip now =
      let ts = restored now hi lo in
      let res = bytes_eq (token salt ts ip) (take hmac_len tag) in
      if ltb (length tag) hmac_len
      then panic
      else ok (ltb now (ts + ttl + g.max_clock_skew) && (ltb ts (now + g.max_clock_skew) && res))
  validate g _ ip now = panic

  -- an identifier of eight bytes is long enough
  pub validate_total :
      (g : ConnectionIdGenerator) (conn_id : Bytes) (ip : Addr) (now : ℕ)
      → length conn_id ≡ 8
      → (valid : Bool) × (validate g conn_id ip now ≡ ok valid)
  unfolding validate
  validate_total g (salt ∷ hi ∷ lo ∷ tag) ip now h =
      (_, if_false (ltb (length tag) hmac_len) _ _ (ground arith))
  validate_total g [] ip now h = absurd (omega (arith, h))
  validate_total g (a ∷ []) ip now h = absurd (omega (arith, h))
  validate_total g (a ∷ b ∷ []) ip now h = absurd (omega (arith, h))

  take-take : (bs : Bytes) → take hmac_len (take hmac_len bs) ≡ take hmac_len bs
  take-take bs = ground arith

  restored_same :
      (now t : ℕ) → now / 2 ^ 16 ≡ t / 2 ^ 16 → restored now (t / 256 % 256) (t % 256) ≡ t
  unfolding restored
  restored_same now t h = omega arith

  bytes_eq-same : (bs : Bytes) → bytes_eq bs bs ≡ true
  bytes_eq-same bs = (bytes_eq_iff bs bs).1 refl

  module _ (long : (bs : Bytes) → hmac_len ≤ length (mac bs)) (salt ts : ℕ) (ip : Addr) where
    pub length-token : length (token salt ts ip) ≡ hmac_len
    unfolding token
    length-token = ground (
      arith,
      length-take hmac_len (mac ((salt ∷ put_uint64 ts) ++ as_slice ip)),
      long ((salt ∷ put_uint64 ts) ++ as_slice ip),
    )

    take-token : take hmac_len (token salt ts ip) ≡ token salt ts ip
    unfolding token
    take-token = take-take _

  -- An identifier made for an address at a time `t` is accepted for that address at every time in the
  -- same block of 2 ^ 16 seconds that is not behind `t` by the clock skew or more, however long after
  -- `t` that is. The hash has at least the five bytes that are taken of it.
  pub validate-generate :
      ((bs : Bytes) → hmac_len ≤ length (mac bs))
      → (random : ℕ) (g : ConnectionIdGenerator) (ip : Addr) (t now : ℕ) → now / 2 ^ 16 ≡ t / 2 ^ 16
      → t < now + g.max_clock_skew
      → validate g (generate random g ip t).0 ip now ≡ ok true
  unfolding generate validate
  validate-generate long random g ip t now block skew =
      let within : now < t + ttl + g.max_clock_skew = omega arith in
      rw (restored_same now t block) (
        rw (length-token long ((xor_shift_64_s random).0 % 256) t ip) (
          rw (take-token long ((xor_shift_64_s random).0 % 256) t ip) (
            rw (bytes_eq-same (token ((xor_shift_64_s random).0 % 256) t ip))
              (ground (arith, within)))))
