-- ===== src/Frontend/Udp/Config.antt =====
-- frontend/udp/frontend.go: the configuration of the frontend, and the listen options of frontend/options.go.
use mochi.Base.{
  ℕ, suc, ◌-◌, ◌*◌, ◌%◌, ◌^◌, ◌<◌, ◌≤◌, ◌≡◌, ◌≢◌, refl, ap, Bool, true, false, ◌||◌, Option, none,
  some, map, arith, ◌==◌, ==_iff, ltb, if◌then◌else◌, if_false, length, length-map, get_elem?,
  Bool-cases, inl, inr,
}
use mochi.Base.Bytes.{Bytes}
use mochi.Base.Int.{ℤ, pos, negsuc}
use mochi.Result.{codes}
use mochi.Frontend.Options.{ParseOptions}
use mochi.Frontend.Options
use mochi.Frontend.Udp.Writer.{second}

abbrev pub default_listen_address : Bytes
default_listen_address = codes ":6969"

-- the fields of frontend.ListenOptions that a frontend reads
pub record ListenOptions : Type 0 where
  pub addr : Bytes
  pub reuse_port : Bool
  pub workers : ℕ

-- ListenOptions.Validate
unfoldable pub validate_listen : ListenOptions → ListenOptions
validate_listen lo = record lo {
  addr = if length lo.addr == 0 then default_listen_address else lo.addr;
}

abbrev pub allowed_runes : Bytes
allowed_runes = codes "abcdefghijklmnopqrstuvwxyzABCDEFGHIJKLMNOPQRSTUVWXYZ1234567890"

abbrev rune_or : Option ℕ → ℕ
rune_or none = 0
rune_or (some c) = c

-- The index is in range, since it is a remainder of the length.
unfoldable pub generated_key : Bytes → Bytes
generated_key random =
    map (λ b. rune_or (get_elem? allowed_runes (b % length allowed_runes))) random

abbrev pub max_allowed_clock_skew : ℕ
max_allowed_clock_skew = 30 * second

abbrev pub default_max_clock_skew : ℕ
default_max_clock_skew = 10 * second

-- `(x ^ sb) + (sb & 1)`, which wraps at the least int64
unfoldable pub abs_int64 : ℤ → ℤ
abs_int64 (pos n) = pos n
abs_int64 (negsuc n) = if n == 2 ^ 63 - 1 then negsuc n else pos (suc n)

-- the test after it, on a signed value
unfoldable pub limit_skew : ℤ → ℤ
limit_skew (pos n) =
    if n == 0 || ltb max_allowed_clock_skew n then pos default_max_clock_skew else pos n
limit_skew (negsuc n) = negsuc n

pub record Config : Type 0 where
  pub listen : ListenOptions
  pub private_key : Bytes
  pub max_clock_skew : ℤ
  pub parse : ParseOptions

-- the workers, and the port that they share
unfoldable pub validate_workers : ListenOptions → ListenOptions
validate_workers lo =
    let workers = if lo.workers == 0 then 1 else lo.workers in
    record lo { workers = workers; reuse_port = ltb 1 workers || lo.reuse_port }

-- Config.Validate; `random` is what is read from crypto/rand for a key.
unfoldable pub validate : Bytes → Config → Config
validate random cfg = record {
  listen = validate_workers (validate_listen cfg.listen);
  private_key = if length cfg.private_key == 0 then generated_key random else cfg.private_key;
  max_clock_skew = limit_skew (abs_int64 cfg.max_clock_skew);
  parse = Options.validate cfg.parse;
}

-- A skew that is positive and within its limit.
abbrev pub IsSkew : ℤ → Type 0
IsSkew (pos n) = (0 < n) × (n ≤ max_allowed_clock_skew)
IsSkew (negsuc n) = ⊥

pub record IsValid (cfg : Config) : Type 0 where
  pub addressed : 0 < length cfg.listen.addr
  pub staffed : 0 < cfg.listen.workers
  pub shared : 1 < cfg.listen.workers → cfg.listen.reuse_port ≡ true
  pub keyed : 0 < length cfg.private_key
  pub skewed : IsSkew cfg.max_clock_skew
  pub wanted : 0 < cfg.parse.max_num_want
  pub defaulted : 0 < cfg.parse.default_num_want
  pub scraped : 0 < cfg.parse.max_scrape_info_hashes

limit_skew-IsSkew : (z : ℤ) → z ≢ negsuc (2 ^ 63 - 1) → IsSkew (limit_skew (abs_int64 z))
unfolding limit_skew abs_int64
limit_skew-IsSkew (pos n) h = ground arith
limit_skew-IsSkew (negsuc n) h =
    let e : (n == 2 ^ 63 - 1) ≡ false = elim (Bool-cases (n == 2 ^ 63 - 1)) [
      | inl q ↦ absurd (h (ap negsuc ((==_iff n (2 ^ 63 - 1)).0 q)))
      | inr q ↦ q
    ] in
    rw e (ground arith)

limit_skew_kept : (z : ℤ) → IsSkew z → limit_skew (abs_int64 z) ≡ z
unfolding limit_skew abs_int64
limit_skew_kept (pos n) h = ground arith
limit_skew_kept (negsuc n) h = absurd h

-- a number or a text that is there is kept
pub or_kept : (n d : ℕ) → 0 < n → (if n == 0 then d else n) ≡ n
or_kept n d h = ground arith

pub text_kept : (t d : Bytes) → 0 < length t → (if length t == 0 then d else t) ≡ t
text_kept t d h = if_false (length t == 0) d t (ground arith)

shared_kept : (b : Bool) (w : ℕ) → (1 < w → b ≡ true) → (ltb 1 w || b) ≡ b
shared_kept b w h = ground arith

validate_kept : (random : Bytes) (cfg : Config) → IsValid cfg → validate random cfg ≡ cfg
unfolding validate validate_workers validate_listen Options.validate
validate_kept random cfg v =
    rw
      (
        or_kept cfg.listen.workers 1 v.staffed,
        text_kept cfg.listen.addr default_listen_address v.addressed,
        shared_kept cfg.listen.reuse_port cfg.listen.workers v.shared,
        text_kept cfg.private_key (generated_key random) v.keyed,
        limit_skew_kept cfg.max_clock_skew v.skewed,
        or_kept cfg.parse.max_num_want 100 v.wanted,
        or_kept cfg.parse.default_num_want 50 v.defaulted,
        or_kept cfg.parse.max_scrape_info_hashes 50 v.scraped,
      )
      refl

pub text_there : (t d : Bytes) → 0 < length d → 0 < length (if length t == 0 then d else t)
text_there t d h = ground arith

pub or_there : (n d : ℕ) → 0 < d → 0 < (if n == 0 then d else n)
or_there n d h = ground arith

validated :
    (random : Bytes) (cfg : Config)
    → length random ≡ 32
    → cfg.max_clock_skew ≢ negsuc (2 ^ 63 - 1)
    → IsValid (validate random cfg)
unfolding validate validate_workers validate_listen Options.validate generated_key
validated random cfg h n = record {
  addressed = text_there cfg.listen.addr default_listen_address (omega arith);
  staffed = or_there cfg.listen.workers 1 (omega arith);
  shared = λ k. ground arith;
  keyed = text_there cfg.private_key (generated_key random) (
      omega (
        arith,
        h,
        length-map random (λ b. rune_or (get_elem? allowed_runes (b % length allowed_runes))),
      ));
  skewed = limit_skew-IsSkew cfg.max_clock_skew n;
  wanted = or_there cfg.parse.max_num_want 100 (omega arith);
  defaulted = or_there cfg.parse.default_num_want 50 (omega arith);
  scraped = or_there cfg.parse.max_scrape_info_hashes 50 (omega arith);
}

-- A validated configuration is valid, and validated again it is the same, whatever is configured, but for a
-- clock skew of the least int64, which has no absolute value. The random key has 32 bytes.
pub validate-IsValid :
    (random random' : Bytes) (cfg : Config)
    → length random ≡ 32
    → cfg.max_clock_skew ≢ negsuc (2 ^ 63 - 1)
    → IsValid (validate random cfg) × (validate random' (validate random cfg) ≡ validate random cfg)
validate-IsValid random random' cfg h n =
    let v = validated random cfg h n in (v, validate_kept random' (validate random cfg) v)
