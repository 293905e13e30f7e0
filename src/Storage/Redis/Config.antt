-- ===== src/Storage/Redis/Config.antt =====
-- storage/redis/storage.go: the configuration, and the choice of a client. Durations are in nanoseconds.
use mochi.Base.{
  ℕ, ◌*◌, ◌≡◌, ◌≢◌, ◌∙◌, sym, All, ◌↔◌, refl, ap, Bool, true, false, ◌&&◌, List, [], ◌∷◌, ltb,
  length, if◌then◌else◌, arith, Bool-cases, inl, inr, ◌⊎◌,
}
use mochi.Base.Bytes.{Bytes}
use mochi.Base.Int.{ℤ}
use mochi.Base.Text.{trim_space}
use mochi.Result.{Error, other_error, Result, ok, err, panic, codes}
use mochi.Storage.Config.{positive_or, IsPositive, positive_or-IsPositive}

abbrev pub default_redis_address : Bytes
default_redis_address = codes "127.0.0.1:6379"

-- defaultReadTimeout, defaultWriteTimeout and defaultConnectTimeout
abbrev pub default_timeout : ℕ
default_timeout = 15 * 1_000_000_000

abbrev pub err_sentinel_and_cluster_checked : Error
err_sentinel_and_cluster_checked = other_error "unable to use both cluster and sentinel mode"

pub record Config : Type 0 where
  pub peer_lifetime : ℤ
  pub addresses : List Bytes
  pub db : ℤ
  pub pool_size : ℤ
  pub login : Bytes
  pub password : Bytes
  pub sentinel : Bool
  pub sentinel_master : Bytes
  pub cluster : Bool
  pub read_timeout : ℤ
  pub write_timeout : ℤ
  pub connect_timeout : ℤ

-- the loop over the addresses
unfoldable pub filled : List Bytes → List Bytes
filled [] = []
filled (a ∷ bs) = let rest = filled bs in if ltb 0 (length (trim_space a)) then a ∷ rest else rest

-- The default stands where none is given, and not where all that are given are blank.
unfoldable pub addresses_or : List Bytes → List Bytes
addresses_or [] = default_redis_address ∷ []
addresses_or (a ∷ bs) = filled (a ∷ bs)

-- the configuration that Config.Validate returns
unfoldable pub with_defaults : Config → Config
with_defaults cfg = record cfg {
  addresses = addresses_or cfg.addresses;
  read_timeout = positive_or default_timeout cfg.read_timeout;
  write_timeout = positive_or default_timeout cfg.write_timeout;
  connect_timeout = positive_or default_timeout cfg.connect_timeout;
}

-- Config.Validate
unfoldable pub validate : Config → Result Config
validate cfg =
    if cfg.sentinel && cfg.cluster
    then err err_sentinel_and_cluster_checked
    else ok (with_defaults cfg)

-- the addresses, and the master, in the options of redis.NewClusterClient, NewFailoverClient and NewClient
pub data Options : Type 0 where
  cluster_options : List Bytes → Options
  failover_options : List Bytes → Bytes → Options
  client_options : Bytes → Options

abbrev pub first_address : List Bytes → Result Options
first_address [] = panic
first_address (a ∷ bs) = ok (client_options a)

-- the switch of Config.Connect, up to the call of a constructor
unfoldable pub connect_options : Config → Result Options
connect_options cfg =
    if cfg.cluster
    then ok (cluster_options cfg.addresses)
    else if cfg.sentinel
    then ok (failover_options cfg.addresses cfg.sentinel_master)
    else first_address cfg.addresses

-- Addresses are given, and each of them is empty when it is trimmed.
abbrev pub AreBlank : List Bytes → Type 0
AreBlank addresses = (addresses ≢ []) × All (λ a. trim_space a ≡ []) addresses

empty_iff : (xs : Bytes) → (ltb 0 (length xs) ≡ false) ↔ (xs ≡ [])
empty_iff [] = ((λ e. refl), λ e. refl)
empty_iff (x ∷ xs) = ((λ e. ground (arith, e)), λ e. absurd (cc))

filled_empty_iff :
    (addresses : List Bytes) → (filled addresses ≡ []) ↔ All (λ a. trim_space a ≡ []) addresses
unfolding filled
filled_empty_iff [] = ((λ e. tt), λ e. refl)
filled_empty_iff (a ∷ rest) = elim (Bool-cases (ltb 0 (length (trim_space a)))) [
  | inl e ↦ ((λ h. absurd (full e h)), λ h. absurd (cc (sym e ∙ (empty_iff (trim_space a)).1 h.0)))
  | inr e ↦ (
    (λ h. ((empty_iff (trim_space a)).0 e, (filled_empty_iff rest).0 (skipped e h))),
    λ h. rw e ((filled_empty_iff rest).1 h.1),
  )
]
  where
    full :
        ltb 0 (length (trim_space a)) ≡ true
        → (if ltb 0 (length (trim_space a)) then a ∷ filled rest else filled rest) ≡ []
        → ⊥
    full e h = cc

    skipped :
        ltb 0 (length (trim_space a)) ≡ false
        → (if ltb 0 (length (trim_space a)) then a ∷ filled rest else filled rest) ≡ []
        → filled rest ≡ []
    skipped e h = ground (arith, e, h)

first_address_panics : (bs : List Bytes) → (first_address (addresses_or bs) ≡ panic) ↔ AreBlank bs
unfolding addresses_or
first_address_panics [] = ((λ e. absurd (cc)), λ e. absurd (e.0 refl))
first_address_panics (a ∷ bs) = (
  λ e. ((λ q. cc), (filled_empty_iff (a ∷ bs)).0 (first e)),
  λ h. ap first_address ((filled_empty_iff (a ∷ bs)).1 h.1),
)
  where
    none_left : (xs : List Bytes) → first_address xs ≡ panic → xs ≡ []
    none_left [] e = refl
    none_left (x ∷ xs) e = absurd (cc)

    first : first_address (filled (a ∷ bs)) ≡ panic → filled (a ∷ bs) ≡ []
    first e = none_left (filled (a ∷ bs)) e

connect_panics :
    (cfg : Config) (s c : Bool) (bs : List Bytes)
    → ((if c
          then ok (cluster_options bs)
          else if s
          then ok (failover_options bs cfg.sentinel_master)
          else first_address bs)
        ≡ panic)
      ↔ (s ≡ false) × (c ≡ false) × (first_address bs ≡ panic)
connect_panics cfg s true bs = ((λ e. absurd (cc)), λ h. absurd (cc))
connect_panics cfg true false bs = ((λ e. absurd (cc)), λ h. absurd (cc))
connect_panics cfg false false bs = ((λ e. (refl, refl, e)), λ h. h.2)

-- A configuration that asks for a sentinel and a cluster is refused. Any other is passed with three positive
-- timeouts; and Connect then panics exactly if it asks for neither and addresses are given, each of which is
-- empty when it is trimmed.
pub validate-connect_options :
    (cfg : Config)
    → (((cfg.sentinel && cfg.cluster) ≡ true)
        × (validate cfg ≡ err err_sentinel_and_cluster_checked))
      ⊎ ((cfg' : Config) × (validate cfg ≡ ok cfg')
          × IsPositive cfg'.read_timeout
          × IsPositive cfg'.write_timeout
          × IsPositive cfg'.connect_timeout
          × ((connect_options cfg' ≡ panic)
              ↔ (cfg.sentinel ≡ false) × (cfg.cluster ≡ false) × AreBlank cfg.addresses))
unfolding validate connect_options with_defaults
validate-connect_options cfg = elim (Bool-cases (cfg.sentinel && cfg.cluster)) [
  | inl e ↦ inl (e, rw e refl)
  | inr e ↦
      let q = connect_panics cfg cfg.sentinel cfg.cluster (addresses_or cfg.addresses) in
      let b = first_address_panics cfg.addresses in
      inr (
        with_defaults cfg,
        rw e refl,
        positive_or-IsPositive default_timeout cfg.read_timeout (omega arith),
        positive_or-IsPositive default_timeout cfg.write_timeout (omega arith),
        positive_or-IsPositive default_timeout cfg.connect_timeout (omega arith),
        ((λ h. ((q.0 h).0, (q.0 h).1, b.0 (q.0 h).2)), λ h. q.1 (h.0, h.1, b.1 h.2)),
      )
]
