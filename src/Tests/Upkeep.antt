-- ===== src/Tests/Upkeep.antt =====
-- Runs of the garbage collector of the Redis storage over one peer of one swarm, on a server that deletes one
-- field at a time, and of the check of a configuration of the Redis storage.
use mochi.Base.{
  ℕ, ◌+◌, ◌-◌, ◌*◌, ◌≡◌, refl, sym, ◌∙◌, Bool, true, false, Option, none, some, List, [], ◌∷◌,
  arith, ite, if◌then◌else◌, inr, ◌&&◌, ◌⊎◌, ◌↔◌,
}
use mochi.Base.Bytes.{Bytes, Bytes-discrete, has_prefix}
use mochi.Base.Int.{ℤ, pos}
use mochi.Result.{ok, err, panic, other_error, Error, codes}
use mochi.Bittorrent.Peer.{Peer}
use mochi.Bittorrent.Hash.{InfoHash}
use mochi.Storage.Memory.View.{Role, leecher}
use mochi.Storage.Memory.Tracker.{spec, collect}
use mochi.Storage.Redis.{pack_peer, is_nil}
use mochi.Storage.Redis.Data.{is_arg_num, has_infix}
use mochi.Storage.Redis.Store.{Fields, role_key, view_of}
use mochi.Storage.Redis.Gc.{GcClient, gc}
use mochi.Storage.Redis.Gc.Collects.{has, read_field, AreDistinct, IsCollectable, IsListed}
use mochi.Storage.Redis.Gc.Refines.{gc-refines_collect}
use mochi.Storage.Config.{IsPositive}
use mochi.Storage.Redis.Config.{
  Config, validate, connect_options, AreBlank, err_sentinel_and_cluster_checked,
  validate-connect_options,
}
use mochi.Tests.{hash, alice}

-- whether the swarm is listed, and whether its peer is there
abbrev Db : Type 0
Db = Bool × Bool

abbrev key : Bytes
key = role_key leecher hash alice

abbrev member : Bytes
member = pack_peer alice

abbrev value : Bytes → ℕ → ℕ
value [] n = n
value (b ∷ bs) n = value bs (10 * n + (b - 48))

abbrev parse : Bytes → Option ℤ
parse bs = some (pos (value bs 0))

abbrev field : Db → Fields
field (l, p) k f =
    ite (Bytes-discrete k key)
      (ite (Bytes-discrete f member) (if p then some (pos 100) else none) none) none

abbrev listed : Db → Bytes → Bool
listed (l, p) k = ite (Bytes-discrete k key) l false

abbrev refusal : Error
refusal = other_error "ERR wrong number of arguments for 'hdel' command"

abbrev db : GcClient Db
db = record {
  smembers = λ k s. (ok (if s.0 then key ∷ [] else []), s);
  hget_all = λ k s.
      (ok (ite (Bytes-discrete k key) (if s.1 then (member, codes "100") ∷ [] else []) []), s);
  hdel_all = λ k fs s. (err refusal, s);
  hdel_one = λ k f s.
      (ok 1, (s.0, ite (Bytes-discrete k key) (ite (Bytes-discrete f member) false s.1) s.1));
  decr_by = λ k n s. (ok tt, s);
  hlen = λ k s. (ok (ite (Bytes-discrete k key) (if s.1 then 1 else 0) 0), s);
  srem = λ i k s. (ok tt, (ite (Bytes-discrete k key) false s.0, s.1));
  watch = λ k f s. f s;
}

refusal-is_arg_num : is_arg_num refusal ≡ true
unfolding is_arg_num has_infix has_prefix
refusal-is_arg_num = refl

refusal-is_nil : is_nil refusal ≡ false
unfolding is_nil
refusal-is_nil = refl

members-listed :
    (s : Db) (k : Bytes) → listed s k ≡ true → has k (if s.0 then key ∷ [] else []) ≡ true
members-listed (true, p) k h = h
members-listed (false, p) k h = ground (arith, h)

abbrev rows : Bool → List (Bytes × Bytes)
rows p = if p then (member, codes "100") ∷ [] else []

abbrev time : Bool → Option ℤ
time p = if p then some (pos 100) else none

rows-AreDistinct : {A : Type 0} (d : Dec A) (p : Bool) → AreDistinct (ite d (rows p) [])
rows-AreDistinct (yes x) true = (refl, tt)
rows-AreDistinct (yes x) false = tt
rows-AreDistinct (no x) p = tt

shown_rows :
    {A : Type 0} (d : Dec A) (p : Bool) (f : Bytes)
    → ite d (ite (Bytes-discrete f member) (time p) none) none
      ≡ read_field parse (ite d (rows p) []) f
shown_rows (yes x) true f = refl
shown_rows (yes x) false f = go (Bytes-discrete f member)
  where
    go : {B : Type 0} (d : Dec B) → ◌≡◌ {A = Option ℤ} (ite d none none) none
    go (yes y) = refl
    go (no y) = refl
shown_rows (no x) p f = refl

no_rows :
    {A : Type 0} (d : Dec A) (p : Bool) (f : Bytes)
    → ◌≡◌ {A = ℕ} (ite d (if p then 1 else 0) 0) 0
    → ite d (ite (Bytes-discrete f member) (time p) none) none ≡ none
no_rows (yes x) true f h = absurd (cc)
no_rows (yes x) false f h = shown_rows (yes x) false f
no_rows (no x) p f h = refl

unlisted :
    (j k : Bytes) (l : Bool) (dj : Dec (j ≡ key)) (dk : Dec (k ≡ key)) (d : Dec (j ≡ k))
    → ite dj (ite dk false l) false ≡ ite d false (ite dj l false)
unlisted j k l (yes x) (yes y) (yes z) = refl
unlisted j k l (yes x) (yes y) (no z) = absurd (z (x ∙ sym y))
unlisted j k l (yes x) (no y) (yes z) = absurd (y (sym z ∙ x))
unlisted j k l (yes x) (no y) (no z) = refl
unlisted j k l (no x) dk (yes z) = refl
unlisted j k l (no x) dk (no z) = refl

deleted :
    (j i k f : Bytes) (p : Bool) (dj : Dec (j ≡ key)) (di : Dec (i ≡ member)) (dk : Dec (k ≡ key))
    (df : Dec (f ≡ member)) (d : Dec (j ≡ k)) (e : Dec (i ≡ f))
    → ite dj (ite di (time (ite dk (ite df false p) p)) none) none
      ≡ ite d
          (if ite e true false then none else ite dj (ite di (time p) none) none)
          (ite dj (ite di (time p) none) none)
deleted j i k f p (no x) di dk df (yes z) (yes w) = refl
deleted j i k f p (no x) di dk df (yes z) (no w) = refl
deleted j i k f p (no x) di dk df (no z) e = refl
deleted j i k f p (yes x) (no y) dk df (yes z) (yes w) = refl
deleted j i k f p (yes x) (no y) dk df (yes z) (no w) = refl
deleted j i k f p (yes x) (no y) dk df (no z) e = refl
deleted j i k f p (yes x) (yes y) (yes v) (yes u) (yes z) (yes w) = refl
deleted j i k f p (yes x) (yes y) (yes v) (yes u) (yes z) (no w) = absurd (w (y ∙ sym u))
deleted j i k f p (yes x) (yes y) (yes v) (no u) (yes z) (yes w) = absurd (u (sym w ∙ y))
deleted j i k f p (yes x) (yes y) (yes v) (no u) (yes z) (no w) = refl
deleted j i k f p (yes x) (yes y) (yes v) df (no z) e = absurd (z (x ∙ sym v))
deleted j i k f p (yes x) (yes y) (no v) df (yes z) e = absurd (v (sym z ∙ x))
deleted j i k f p (yes x) (yes y) (no v) df (no z) e = refl

db-IsCollectable : IsCollectable (λ s. Unit {0}) field listed parse db
db-IsCollectable = record {
  smembers_lists = λ s g. (_, s, refl, (tt, (λ j. refl), λ j f. refl), members-listed s);
  hget_all_reads = λ k s g w.
      (_, s, refl, (tt, (λ j. refl), λ j f. refl), rows-AreDistinct _ s.1, shown_rows _ s.1);
  hdel_all_deletes = λ k fs s g w. inr (refusal, refl, refusal-is_nil, refusal-is_arg_num);
  hdel_one_deletes =
      λ k f s g w. (1, _, refl, (tt, (λ j. refl), λ j i. deleted j i k f s.1 _ _ _ _ _ _));
  decr_by_keeps = λ k n s g. (s, refl, (tt, (λ j. refl), λ j f. refl));
  hlen_counts = λ k s g w. (_, s, refl, (tt, (λ j. refl), λ j f. refl), λ h f. no_rows _ s.1 f h);
  srem_removes = λ k s g. (_, refl, tt, (λ j. unlisted j k s.0 _ _ _), λ j f. refl);
  watch_runs = λ k f s. refl;
}

one_listed : IsListed (λ s. Unit {0}) field listed (true, true)
one_listed k w h f = ground (arith, h)

gc-refines_collect_example :
    (s' : Db) × (gc parse db (pos 100) (true, true) ≡ (ok tt, s'))
    × Unit {0}
    × IsListed (λ s. Unit {0}) field listed s'
    × ((r : Role) (ih : InfoHash) (p : Peer)
        → view_of (field s') r ih p
          ≡ spec (collect (pos 100)) (view_of (field (true, true))) r ih p)
gc-refines_collect_example =
    gc-refines_collect (λ s. Unit {0}) field listed parse db db-IsCollectable (pos 100) (true, true)
      tt one_listed

-- An address of one blank.
abbrev blank_config : Config
blank_config = record {
  peer_lifetime = pos 0;
  addresses = (32 ∷ []) ∷ [];
  db = pos 0;
  pool_size = pos 0;
  login = [];
  password = [];
  sentinel = false;
  sentinel_master = [];
  cluster = false;
  read_timeout = pos 0;
  write_timeout = pos 7;
  connect_timeout = pos 0;
}

validate-connect_options_example :
    (((blank_config.sentinel && blank_config.cluster) ≡ true)
      × (validate blank_config ≡ err err_sentinel_and_cluster_checked))
    ⊎ ((cfg' : Config) × (validate blank_config ≡ ok cfg')
        × IsPositive cfg'.read_timeout
        × IsPositive cfg'.write_timeout
        × IsPositive cfg'.connect_timeout
        × ((connect_options cfg' ≡ panic)
            ↔ (blank_config.sentinel ≡ false)
              × (blank_config.cluster ≡ false)
              × AreBlank blank_config.addresses))
validate-connect_options_example = validate-connect_options blank_config
