-- ===== src/Frontend/Http/Config.antt =====
-- frontend/http/frontend.go: the configuration of the frontend.
use mochi.Base.{
  ℕ, ◌*◌, ◌<◌, ◌≡◌, ◌⊎◌, inl, inr, refl, Bool, true, false, ◌&&◌, ◌||◌, Bool-cases, ap, ◌∙◌, Option,
  none, some, List, [], ◌∷◌, arith, ◌==◌, if◌then◌else◌, length,
}
use mochi.Base.Bytes.{Bytes}
use mochi.Base.Int.{ℤ}
use mochi.Result.{Error, other_error, codes}
use mochi.Frontend.Options
use mochi.Storage.Config.{positive_or, IsPositive, positive_or-IsPositive, positive_or_kept}
use mochi.Frontend.Udp.Config.{
  ListenOptions, validate_listen, default_listen_address, or_kept, or_there, text_kept, text_there,
}
use mochi.Frontend.Udp.Writer.{second}
use mochi.Frontend.Http.Parser.{ParseOptions}

abbrev pub err_tls_not_provided : Error
err_tls_not_provided = other_error "tls certificate/key not provided"

pub record Config : Type 0 where
  pub listen : ListenOptions
  pub read_timeout : ℤ
  pub write_timeout : ℤ
  pub idle_timeout : ℤ
  pub enable_keep_alive : Bool
  pub use_tls : Bool
  pub tls_cert_path : Bytes
  pub tls_key_path : Bytes
  pub announce_routes : List Bytes
  pub scrape_routes : List Bytes
  pub ping_routes : List Bytes
  pub parse : ParseOptions

abbrev pub default_read_timeout : ℕ
default_read_timeout = 2 * second

abbrev pub default_write_timeout : ℕ
default_write_timeout = 2 * second

abbrev pub default_idle_timeout : ℕ
default_idle_timeout = 30 * second

abbrev pub default_announce_route : Bytes
default_announce_route = codes "/announce"

abbrev pub default_scrape_route : Bytes
default_scrape_route = codes "/scrape"

-- `if len(routes) == 0`
unfoldable pub routes_or : Bytes → List Bytes → List Bytes
routes_or default [] = default ∷ []
routes_or default (r ∷ rs) = r ∷ rs

-- Config.Validate: the new configuration and the error, with which the rest is not checked.
unfoldable pub validate : Config → Config × Option Error
validate cfg =
    let listened = record cfg { listen = validate_listen cfg.listen } in
    if cfg.use_tls && (length cfg.tls_cert_path == 0 || length cfg.tls_key_path == 0)
    then (listened, some err_tls_not_provided)
    else (
      record listened {
        read_timeout = positive_or default_read_timeout cfg.read_timeout;
        write_timeout = positive_or default_write_timeout cfg.write_timeout;
        idle_timeout = positive_or default_idle_timeout cfg.idle_timeout;
        announce_routes = routes_or default_announce_route cfg.announce_routes;
        scrape_routes = routes_or default_scrape_route cfg.scrape_routes;
        parse = record cfg.parse { options = Options.validate cfg.parse.options };
      },
      none,
    )

pub record IsValid (cfg : Config) : Type 0 where
  pub addressed : 0 < length cfg.listen.addr
  pub reads : IsPositive cfg.read_timeout
  pub writes : IsPositive cfg.write_timeout
  pub idles : IsPositive cfg.idle_timeout
  pub announces : 0 < length cfg.announce_routes
  pub scrapes : 0 < length cfg.scrape_routes
  pub wanted : 0 < cfg.parse.options.max_num_want
  pub defaulted : 0 < cfg.parse.options.default_num_want
  pub hashes : 0 < cfg.parse.options.max_scrape_info_hashes

-- TLS is asked for without a certificate or without a key.
abbrev pub LacksTls : Config → Type 0
LacksTls cfg = (cfg.use_tls ≡ true) × ((cfg.tls_cert_path ≡ []) ⊎ (cfg.tls_key_path ≡ []))

routes_there : (d : Bytes) (rs : List Bytes) → 0 < length (routes_or d rs)
unfolding routes_or
routes_there d [] = omega arith
routes_there d (r ∷ rs) = omega arith

routes_kept : (d : Bytes) (rs : List Bytes) → 0 < length rs → routes_or d rs ≡ rs
unfolding routes_or
routes_kept d [] h = absurd (omega arith)
routes_kept d (r ∷ rs) h = refl

module _ (cfg : Config) where
  -- what is validated where TLS lacks nothing
  settled : Config
  settled = record cfg {
    listen = validate_listen cfg.listen;
    read_timeout = positive_or default_read_timeout cfg.read_timeout;
    write_timeout = positive_or default_write_timeout cfg.write_timeout;
    idle_timeout = positive_or default_idle_timeout cfg.idle_timeout;
    announce_routes = routes_or default_announce_route cfg.announce_routes;
    scrape_routes = routes_or default_scrape_route cfg.scrape_routes;
    parse = record cfg.parse { options = Options.validate cfg.parse.options };
  }

  abbrev lacks : Bool
  lacks = cfg.use_tls && (length cfg.tls_cert_path == 0 || length cfg.tls_key_path == 0)

  settled-IsValid : IsValid settled
  unfolding settled validate_listen Options.validate
  settled-IsValid = record {
    addressed = text_there cfg.listen.addr default_listen_address (omega arith);
    reads = positive_or-IsPositive default_read_timeout cfg.read_timeout (omega arith);
    writes = positive_or-IsPositive default_write_timeout cfg.write_timeout (omega arith);
    idles = positive_or-IsPositive default_idle_timeout cfg.idle_timeout (omega arith);
    announces = routes_there default_announce_route cfg.announce_routes;
    scrapes = routes_there default_scrape_route cfg.scrape_routes;
    wanted = or_there cfg.parse.options.max_num_want 100 (omega arith);
    defaulted = or_there cfg.parse.options.default_num_want 50 (omega arith);
    hashes = or_there cfg.parse.options.max_scrape_info_hashes 50 (omega arith);
  }

  length_nil : (bs : Bytes) → length bs ≡ 0 → bs ≡ []
  length_nil [] h = refl
  length_nil (b ∷ bs) h = absurd (omega (arith, h))

  lacks-LacksTls : lacks ≡ true → LacksTls cfg
  lacks-LacksTls h = ground (arith, length_nil cfg.tls_cert_path, length_nil cfg.tls_key_path)

  LacksTls-lacks : LacksTls cfg → lacks ≡ true
  LacksTls-lacks (t, inl e) = rw (t, e) refl
  LacksTls-lacks (t, inr e) = rw (t, e) (ground arith)

  validate-settled : lacks ≡ false → validate cfg ≡ (settled, none)
  unfolding validate settled
  validate-settled e = rw e refl

settled_kept : (cfg : Config) → IsValid cfg → settled cfg ≡ cfg
unfolding settled validate_listen Options.validate
settled_kept cfg v =
    rw
      (
        text_kept cfg.listen.addr default_listen_address v.addressed,
        positive_or_kept default_read_timeout cfg.read_timeout v.reads,
        positive_or_kept default_write_timeout cfg.write_timeout v.writes,
        positive_or_kept default_idle_timeout cfg.idle_timeout v.idles,
        routes_kept default_announce_route cfg.announce_routes v.announces,
        routes_kept default_scrape_route cfg.scrape_routes v.scrapes,
        or_kept cfg.parse.options.max_num_want 100 v.wanted,
        or_kept cfg.parse.options.default_num_want 50 v.defaulted,
        or_kept cfg.parse.options.max_scrape_info_hashes 50 v.hashes,
      )
      refl

-- A configuration that asks for TLS without a certificate or a key is refused with that error; any other is
-- accepted, and then it is valid (an address, positive timeouts, routes for announces and scrapes, the
-- limits of requests positive), and validated again it is the same.
pub validate_cases :
    (cfg : Config)
    → (LacksTls cfg → (validate cfg).1 ≡ some err_tls_not_provided)
      × (¬ LacksTls cfg
          → ((validate cfg).1 ≡ none)
            × IsValid (validate cfg).0
            × (validate (validate cfg).0 ≡ validate cfg))
unfolding validate
validate_cases cfg = (
  λ h. rw (LacksTls-lacks cfg h) refl,
  λ h.
      let e : lacks cfg ≡ false = elim (Bool-cases (lacks cfg)) [
        | inl t ↦ absurd (h (lacks-LacksTls cfg t))
        | inr f ↦ f
      ] in
      rw (validate-settled cfg e) (
        refl,
        settled-IsValid cfg,
        validate-settled (settled cfg) (unfold settled in e)
            ∙ ap (λ c. (c, none)) (settled_kept (settled cfg) (settled-IsValid cfg)),
      ),
)
