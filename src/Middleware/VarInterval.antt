-- ===== src/Middleware/VarInterval.antt =====
-- middleware/varinterval/varinterval.go: a hook that lengthens the intervals of some responses. Floating
-- point is not modelled: the test of a number against the configured probability is the field `modifies`.
-- Durations are integers of 64 bits, which wrap.
use mochi.Base.{
  ℕ, ◌+◌, ◌*◌, ◌%◌, ◌^◌, ◌≤◌, ◌<◌, ◌≡◌, refl, Bool, arith, leb, if◌then◌else◌, length, take, drop,
  Bool-cases, inl, inr, true, ltb, lt→ltb,
}
use native.Mathlib.Nat.{mod-lt}
use mochi.Base.Bytes.{uint_be}
use mochi.Base.Int.{ℤ, pos, add_int64, int64_of, to_uint}
use mochi.Result.{ok, Act}
use mochi.Pkg.Xorshift.{xo_ro_shi_ro_128_ss}
use mochi.Bittorrent.Hash.{info_hash_v1_len}
use mochi.Bittorrent.Request.{AnnounceRequest, AnnounceResponse}
use mochi.Middleware.Response.{Context}
use mochi.Middleware.Logic.{Hook}

-- The configuration that `checkConfig` lets pass: the delta is not 0.
pub record VarInterval : Type 0 where
  pub modifies : ℕ → Bool
  pub max_increase_delta : ℕ
  pub modify_min_interval : Bool

abbrev pub second : ℕ
second = 1_000_000_000

unfoldable pub derive_entropy_from_request : AnnounceRequest → ℕ × ℕ
derive_entropy_from_request req = (
  if leb info_hash_v1_len (length req.info_hash)
      then (uint_be (take 8 req.info_hash) + uint_be (take 8 (drop 8 req.info_hash))) % 2 ^ 64
      else 0,
  (uint_be (take 8 req.peer.id) + uint_be (take 8 (drop 8 req.peer.id))) % 2 ^ 64,
)

-- the response, lengthened by an increase
unfoldable pub lengthen : VarInterval → ℤ → AnnounceResponse → AnnounceResponse
lengthen h increase resp = record resp {
  interval = add_int64 resp.interval increase;
  min_interval =
      if h.modify_min_interval then add_int64 resp.min_interval increase else resp.min_interval;
}

unfoldable pub vary_announce :
    {S : Type 0}
    → VarInterval
    → Context
    → AnnounceRequest
    → AnnounceResponse
    → Act S (Context × AnnounceResponse)
vary_announce h ctx req resp s =
    let (v0, v1) = derive_entropy_from_request req in
    let (p, s0, s1) = xo_ro_shi_ro_128_ss v0 v1 in
    let v = (xo_ro_shi_ro_128_ss s0 s1).0 in
    if h.modifies p
    then (
      ok (ctx, lengthen h (int64_of (((v % h.max_increase_delta + 1) * second) % 2 ^ 64)) resp),
      s,
    )
    else (ok (ctx, resp), s)

abbrev pub var_interval_hook : {S : Type 0} → VarInterval → Hook S
var_interval_hook h = record {
  handle_announce = vary_announce h;
  handle_scrape = λ ctx req resp s. (ok (ctx, resp), s);
}

-- short durations are added without a wrap
add_int64_short :
    (m k : ℕ) → m + k < 2 ^ 63 → add_int64 (pos m) (int64_of (k % 2 ^ 64)) ≡ pos (m + k)
unfolding add_int64 to_uint
add_int64_short m k h =
    let small : k % 2 ^ 64 ≡ k = omega (arith, h) in
    let low : ltb k (2 ^ 63) ≡ true = lt→ltb k (2 ^ 63) (omega (arith, h)) in
    let sum : (m % 2 ^ 64 + k % 2 ^ 64) % 2 ^ 64 ≡ m + k = omega (arith, h) in
    let fits : ltb (m + k) (2 ^ 63) ≡ true = lt→ltb (m + k) (2 ^ 63) h in
    rw (small, low, sum, fits) refl

-- Under a delta that is not 0, for a response whose intervals are not negative and stay below 2 ^ 63
-- nanoseconds when the delta is added, the hook succeeds and leaves the storage and the context, and adds to
-- the interval of the response a whole number of seconds, up to the delta; it adds the same to the least
-- interval if that is configured and leaves it otherwise; and it changes nothing else in the response.
pub vary_announce-bounds :
    {S : Type 0} (h : VarInterval) (ctx : Context) (req : AnnounceRequest) (resp : AnnounceResponse)
    (m n : ℕ) (s : S)
    → 0 < h.max_increase_delta
    → m + h.max_increase_delta * second < 2 ^ 63
    → n + h.max_increase_delta * second < 2 ^ 63
    → (k : ℕ) × (k ≤ h.max_increase_delta)
      × (vary_announce h ctx req (record resp { interval = pos m; min_interval = pos n }) s ≡ (
        ok (
          ctx,
          record resp {
            interval = pos (m + k * second);
            min_interval = pos (if h.modify_min_interval then n + k * second else n);
          },
        ),
        s,
      ))
unfolding vary_announce lengthen
vary_announce-bounds h ctx req resp m n s d fits fits' =
    let (v0, v1) = derive_entropy_from_request req in
    let (p, s0, s1) = xo_ro_shi_ro_128_ss v0 v1 in
    let v = (xo_ro_shi_ro_128_ss s0 s1).0 in
    let k = v % h.max_increase_delta + 1 in
    let up : k ≤ h.max_increase_delta = omega (arith, mod-lt v d) in
    elim (Bool-cases (h.modifies p)) [
      | inl modified ↦ elim (Bool-cases h.modify_min_interval) [
        | inl both ↦ (
          k,
          up,
          rw
              (
                modified,
                both,
                add_int64_short m (k * second) (omega (arith, up, fits)),
                add_int64_short n (k * second) (omega (arith, up, fits')),
              )
              refl,
        )
        | inr one ↦ (
          k,
          up,
          rw (modified, one, add_int64_short m (k * second) (omega (arith, up, fits))) refl,
        )
      ]
      | inr kept ↦
          (0, omega arith, rw (kept, zero_more m, zero_more_if h.modify_min_interval n) refl)
    ]
  where
    zero_more : (i : ℕ) → i + 0 ≡ i
    zero_more i = omega arith

    zero_more_if : (b : Bool) (i : ℕ) → (if b then i + 0 else i) ≡ i
    zero_more_if b i = ground arith
