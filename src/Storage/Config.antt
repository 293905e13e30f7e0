-- ===== src/Storage/Config.antt =====
-- storage/storage.go: the configured periods of a storage. Durations are in nanoseconds.
use mochi.Base.{ℕ, ◌*◌, ◌<◌, ◌≡◌, refl, arith, ◌==◌, if◌then◌else◌}
use mochi.Base.Int.{ℤ, pos, negsuc}

abbrev second : ℕ
second = 1_000_000_000

abbrev pub default_prometheus_reporting_interval : ℕ
default_prometheus_reporting_interval = second

abbrev pub default_garbage_collection_interval : ℕ
default_garbage_collection_interval = 180 * second

abbrev pub default_peer_lifetime : ℕ
default_peer_lifetime = 1800 * second

pub record Config : Type 0 where
  pub garbage_collection_interval : ℤ
  pub peer_lifetime : ℤ
  pub prometheus_reporting_interval : ℤ

-- `d`, or the default where `d <= 0`
unfoldable pub positive_or : ℕ → ℤ → ℤ
positive_or default (pos n) = if n == 0 then pos default else pos n
positive_or default (negsuc n) = pos default

unfoldable pub sanitize_gc_config : Config → ℤ × ℤ
sanitize_gc_config c = (
  positive_or default_garbage_collection_interval c.garbage_collection_interval,
  positive_or default_peer_lifetime c.peer_lifetime,
)

-- There is no branch for a period that is not negative: the named result keeps its zero value.
unfoldable pub sanitize_statistics_config : Config → ℤ
sanitize_statistics_config c = elim c.prometheus_reporting_interval [
  | pos n ↦ pos 0
  | negsuc n ↦ pos default_prometheus_reporting_interval
]

abbrev pub IsPositive : ℤ → Type 0
IsPositive (pos n) = 0 < n
IsPositive (negsuc n) = 0 < 0

pub positive_or-IsPositive :
    (default : ℕ) (d : ℤ) → 0 < default → IsPositive (positive_or default d)
unfolding positive_or
positive_or-IsPositive default (pos n) h = ground arith
positive_or-IsPositive default (negsuc n) h = h

pub positive_or_kept : (default : ℕ) (d : ℤ) → IsPositive d → positive_or default d ≡ d
unfolding positive_or
positive_or_kept default (pos n) h = ground arith
positive_or_kept default (negsuc n) h = absurd (omega (arith, h))

-- Whatever is configured, both periods of the garbage collector are positive, and a sanitized configuration
-- is sanitized to itself.
pub sanitize_gc_config-IsPositive :
    (c : Config)
    → IsPositive (sanitize_gc_config c).0
      × IsPositive (sanitize_gc_config c).1
      × (sanitize_gc_config (record c {
        garbage_collection_interval = (sanitize_gc_config c).0;
        peer_lifetime = (sanitize_gc_config c).1;
      })
          ≡ sanitize_gc_config c)
unfolding sanitize_gc_config
sanitize_gc_config-IsPositive c =
    let a =
      positive_or-IsPositive default_garbage_collection_interval c.garbage_collection_interval
        (omega arith) in
    let b = positive_or-IsPositive default_peer_lifetime c.peer_lifetime (omega arith) in
    (
      a,
      b,
      rw
          (
            positive_or_kept default_garbage_collection_interval
                (positive_or default_garbage_collection_interval c.garbage_collection_interval) a,
            positive_or_kept default_peer_lifetime
                (positive_or default_peer_lifetime c.peer_lifetime) b,
          )
          refl,
    )
