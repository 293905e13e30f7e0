-- ===== src/Storage/Registry.antt =====
-- storage/storage.go: the registry of drivers, and what NewStorage starts. conf.MapConfig is a parameter with its
-- Unmarshal.
use mochi.Base.{
  ℕ, ◌≡◌, refl, arith, Bool, true, false, ◌&&◌, Option, none, some, List, [], ◌∷◌, ◌++◌, ltb,
  if◌then◌else◌, All, All-append, Bool-cases, inl, inr,
}
use mochi.Base.Bytes.{Bytes, Bytes-discrete}
use mochi.Base.Int.{ℤ, pos, negsuc}
use mochi.Base.Map
use mochi.Base.Map.{Map}
use mochi.Result.{Error, other_error, Result, ok, err, ◌>>=◌}
use mochi.Storage.Config.{
  Config, IsPositive, sanitize_gc_config, sanitize_statistics_config, sanitize_gc_config-IsPositive,
}
use mochi.Middleware.Registry.{register_builder}

-- The text of the source also has the name.
abbrev pub err_no_driver : Error
err_no_driver = other_error "storage with that name does not exists"

-- a task that NewStorage schedules
pub data Schedule : Type 0 where
  collect_garbage : ℤ → ℤ → Schedule
  collect_statistics : ℤ → Schedule

-- A storage, and whether it is a GarbageCollector and a StatisticsCollector.
pub record Built (A : Type 0) : Type 0 where
  pub storage : A
  pub is_garbage_collector : Bool
  pub is_statistics_collector : Bool

abbrev pub is_positive : ℤ → Bool
is_positive (pos n) = ltb 0 n
is_positive (negsuc n) = false

unfoldable pub schedules : {A : Type 0} → Config → Built A → List Schedule
schedules c b =
    let (gc_interval, peer_ttl) = sanitize_gc_config c in
    let stat_interval = sanitize_statistics_config c in
    (if b.is_garbage_collector then collect_garbage gc_interval peer_ttl ∷ [] else [])
    ++ (if b.is_statistics_collector && is_positive stat_interval
        then collect_statistics stat_interval ∷ []
        else [])

module _ {C A : Type 0} where
  -- RegisterDriver is written as RegisterBuilder is.
  unfoldable pub register_driver :
      Bytes
      → Option (C → Result (Built A))
      → Map Bytes (C → Result (Built A))
      → Result (Map Bytes (C → Result (Built A)))
  register_driver name d drivers = register_builder name d drivers

  unfoldable pub start_with :
      (C → Result Config) → Option (C → Result (Built A)) → C → Result (A × List Schedule)
  start_with unmarshal none config = err err_no_driver
  start_with unmarshal (some driver) config = do
    c ← unmarshal config
    b ← driver config
    ok (b.storage, schedules c b)

  -- NewStorage: the storage, and what is scheduled for it
  unfoldable pub new_storage :
      (C → Result Config)
      → Map Bytes (C → Result (Built A))
      → Bytes
      → C
      → Result (A × List Schedule)
  new_storage unmarshal drivers name config =
      start_with unmarshal (Map.get Bytes-discrete name drivers) config

-- What a scheduled task runs by.
abbrev pub IsTimed : Schedule → Type 0
IsTimed (collect_garbage interval ttl) = IsPositive interval × IsPositive ttl
IsTimed (collect_statistics interval) = IsPositive interval

is_positive-IsPositive : (d : ℤ) → is_positive d ≡ true → IsPositive d
is_positive-IsPositive (pos n) h = ground (arith, h)
is_positive-IsPositive (negsuc n) h = absurd (cc)

-- Whatever is configured, what is scheduled runs by positive periods, for any storage.
pub schedules-IsTimed : {A : Type 0} (c : Config) (b : Built A) → All IsTimed (schedules c b)
unfolding schedules
schedules-IsTimed c b =
    let (x, y, z) = sanitize_gc_config-IsPositive c in
    All-append IsTimed _ _
      (elim b.is_garbage_collector
        as (λ q. All IsTimed (
          if q
          then collect_garbage (sanitize_gc_config c).0 (sanitize_gc_config c).1 ∷ []
          else [])) [ true ↦ ((x, y), tt) | false ↦ tt ])
      (statistics (b.is_statistics_collector && is_positive (sanitize_statistics_config c))
        λ e. is_positive-IsPositive _ (positive_of b.is_statistics_collector _ e))
  where
    positive_of : (p q : Bool) → (p && q) ≡ true → q ≡ true
    positive_of p q e = ground arith

    statistics :
        (q : Bool)
        → (q ≡ true → IsPositive (sanitize_statistics_config c))
        → All IsTimed (if q then collect_statistics (sanitize_statistics_config c) ∷ [] else [])
    statistics true h = (h refl, tt)
    statistics false h = tt

-- For a period that is not negative, no statistics are collected: only the garbage collector is scheduled.
pub schedules_silent :
    {A : Type 0} (c : Config) (b : Built A) (n : ℕ)
    → c.prometheus_reporting_interval ≡ pos n
    → schedules c b ≡ (
        if b.is_garbage_collector
        then collect_garbage (sanitize_gc_config c).0 (sanitize_gc_config c).1 ∷ []
        else [])
unfolding schedules sanitize_statistics_config
schedules_silent c b n e = elim (Bool-cases b.is_statistics_collector) [
  | inl s ↦ elim (Bool-cases b.is_garbage_collector) [
    | inl g ↦ rw (e, s, g) refl
    | inr g ↦ rw (e, s, g) refl
  ]
  | inr s ↦ elim (Bool-cases b.is_garbage_collector) [
    | inl g ↦ rw (s, g) refl
    | inr g ↦ rw (s, g) refl
  ]
]
