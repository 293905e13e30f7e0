-- ===== src/Storage/Redis/Store.antt =====
-- storage/redis/storage.go: the calls that change a swarm against the table that the memory storage keeps too.
use mochi.Base.{
  ℕ, ◌<◌, ◌^◌, ◌≡◌, refl, sym, ap, ◌∙◌, Bool, true, false, Option, none, some, List, [], ◌∷◌, map,
  ite, length, All, if◌then◌else◌, ◌⊎◌,
}
use mochi.Base.Bytes.{Bytes, Bytes-discrete}
use mochi.Base.Map.{is_some}
use mochi.Base.Int.{ℤ}
use mochi.Netip.{is6}
use mochi.Result.{ok}
use mochi.Bittorrent.Peer.{Peer, Peer-discrete, addr}
use mochi.Bittorrent.Hash.{InfoHash}
use mochi.Storage.Memory.View.{Role, seeder, leecher, View, assign}
use mochi.Storage.Redis.{
  Client, Command, hset, hdel, hincr_by, incr, decr, sadd, info_hash_key, pack_peer, unpack_peer,
  ih_key, count_seeder_key, count_leecher_key, count_downloads_key,
}
use mochi.Storage.Redis.Keys.{info_hash_key-injective}
use mochi.Storage.Redis.Packing.{without_zone, Fits, unpack_peer-pack_peer}

-- the hashes of Redis, as times: a key and a field to a value
abbrev pub Fields : Type 0
Fields = Bytes → Bytes → Option ℤ

abbrev pub set_field : Bytes → Bytes → Option ℤ → Fields → Fields
set_field k f o t j g = ite (Bytes-discrete j k) (ite (Bytes-discrete g f) o (t j g)) (t j g)

-- what the commands of a transaction do to the hashes of swarms
abbrev pub ran : List Command → Fields → Fields
ran [] t = t
ran (hset k f v ∷ cs) t = ran cs (set_field k f (some v) t)
ran (hdel k f ∷ cs) t = ran cs (set_field k f none t)
ran (hincr_by k f n ∷ cs) t = ran cs t
ran (incr k ∷ cs) t = ran cs t
ran (decr k ∷ cs) t = ran cs t
ran (sadd k m ∷ cs) t = ran cs t

abbrev pub IsSwarmKey : Bytes → Type 0
IsSwarmKey k = (ih : InfoHash) × (s : Bool) × (v6 : Bool) × (k ≡ info_hash_key ih s v6)

abbrev pub IsCounter : Bytes → Type 0
IsCounter k = (k ≡ count_seeder_key) ⊎ (k ≡ count_leecher_key)

-- A command on a key of its type.
abbrev pub IsTyped : Command → Type 0
IsTyped (hset k f v) = IsSwarmKey k
IsTyped (hdel k f) = IsSwarmKey k
IsTyped (hincr_by k f n) = k ≡ count_downloads_key
IsTyped (incr k) = IsCounter k
IsTyped (decr k) = IsCounter k
IsTyped (sadd k m) = k ≡ ih_key

-- What Redis and its client document: a queued command shows the result 0 and no error, a transaction runs
-- its commands in order, HDEL says how many fields it deleted, and DECR changes no hash. `Good` says that no
-- key of the store holds another type of value.
pub record IsRedis {S : Type 0} (Good : S → Type 0) (field : S → Fields) (c : Client S)
    : Type 0 where
  pub queued_zero : (cmd : Command) → c.queued cmd ≡ ok 0
  pub tx_runs :
      (cmds : List Command) (s : S)
      → Good s
      → All IsTyped cmds
      → (s' : S) × (c.tx_pipelined cmds s ≡ (ok (map (λ cmd. none) cmds), s'))
        × Good s'
        × ((k f : Bytes) → field s' k f ≡ ran cmds (field s) k f)
  pub hdel_deletes :
      (k f : Bytes) (s : S)
      → Good s
      → IsSwarmKey k
      → (s' : S) × (c.hdel_one k f s ≡ (ok (if is_some (field s k f) then 1 else 0), s'))
        × Good s'
        × ((j g : Bytes) → field s' j g ≡ set_field k f none (field s) j g)
  pub decr_keeps :
      (k : Bytes) (s : S)
      → Good s
      → IsCounter k
      → (n : ℕ) × (s' : S) × (c.decr_one k s ≡ (ok n, s'))
        × Good s'
        × ((j g : Bytes) → field s' j g ≡ field s j g)

-- A peer that is stored as it is: 20 bytes, 16 bits, and a valid address that is unmapped and has no zone.
pub record IsStorable (p : Peer) : Type 0 where
  pub twenty : length p.id ≡ 20
  pub port : p.port < 2 ^ 16
  pub fits : Fits (addr p)
  pub plain : without_zone (addr p) ≡ p.ip

abbrev pub is_seeder : Role → Bool
is_seeder seeder = true
is_seeder leecher = false

abbrev pub role_key : Role → InfoHash → Peer → Bytes
role_key r ih p = info_hash_key ih (is_seeder r) (is6 (addr p))

-- the table of a state: where a peer of a swarm is kept
abbrev pub view_of : Fields → View
view_of t r ih p = t (role_key r ih p) (pack_peer p)

unpacked : (p : Peer) → IsStorable p → unpack_peer (pack_peer p) ≡ ok p
unpacked p h =
    unpack_peer-pack_peer p h.twenty h.port h.fits ∙ ap (λ a. ok (record p { ip = a })) h.plain

pack_peer-injective : (p q : Peer) → IsStorable p → IsStorable q → pack_peer q ≡ pack_peer p → q ≡ p
pack_peer-injective p q h k e =
    let r : ok q ≡ ok p = sym (unpacked q k) ∙ ap unpack_peer e ∙ unpacked p h in cc

module _ (ih : InfoHash) (p : Peer) (o x : Option ℤ) (jh : InfoHash) (q : Peer) (h : IsStorable p)
    (k : IsStorable q) where
  SameRole :
      (b : Bool)
      → Dec (info_hash_key jh b (is6 (addr q)) ≡ info_hash_key ih b (is6 (addr p)))
      → Dec (pack_peer q ≡ pack_peer p)
      → Type 0
  SameRole b dk df =
      (dh : Dec (jh ≡ ih)) (dp : Dec (q ≡ p)) → ite dk (ite df o x) x ≡ ite dh (ite dp o x) x

  view-SameRole :
      (b : Bool) (dk : Dec (info_hash_key jh b (is6 (addr q)) ≡ info_hash_key ih b (is6 (addr p))))
      (df : Dec (pack_peer q ≡ pack_peer p))
      → SameRole b dk df
  unfolding SameRole
  view-SameRole b (yes e) (yes f) (yes u) (yes v) = refl
  view-SameRole b (yes e) (yes f) (no n) dp =
      absurd (n (info_hash_key-injective jh ih b (is6 (addr q)) b (is6 (addr p)) e).0)
  view-SameRole b (yes e) (yes f) (yes u) (no n) = absurd (n (pack_peer-injective p q h k f))
  view-SameRole b (yes e) (no f) (yes u) (yes v) = absurd (f (ap pack_peer v))
  view-SameRole b (yes e) (no f) (yes u) (no n) = refl
  view-SameRole b (yes e) (no f) (no n) dp = refl
  view-SameRole b (no e) df (yes u) (yes v) = absurd (e (rw (u, v) refl))
  view-SameRole b (no e) df (yes u) (no n) = refl
  view-SameRole b (no e) df (no n) dp = refl

  other_key :
      (b b' : Bool)
      → (b' ≡ b → ⊥)
      → (dk : Dec (info_hash_key jh b' (is6 (addr q)) ≡ info_hash_key ih b (is6 (addr p))))
        (df : Dec (pack_peer q ≡ pack_peer p))
      → ite dk (ite df o x) x ≡ x
  other_key b b' n (yes e) df =
      absurd (n (info_hash_key-injective jh ih b' (is6 (addr q)) b (is6 (addr p)) e).1)
  other_key b b' n (no e) df = refl

-- A field that is set is one place of the table.
pub view-set_field :
    (r : Role) (ih : InfoHash) (p : Peer) (o : Option ℤ) (t : Fields) (r' : Role) (jh : InfoHash)
    (q : Peer)
    → IsStorable p
    → IsStorable q
    → view_of (set_field (role_key r ih p) (pack_peer p) o t) r' jh q
      ≡ assign r ih p o (view_of t) r' jh q
unfolding assign SameRole
view-set_field seeder ih p o t seeder jh q h k =
    view-SameRole ih p o (t (role_key seeder jh q) (pack_peer q)) jh q h k true (Bytes-discrete _ _)
      (Bytes-discrete _ _) (Bytes-discrete jh ih) (Peer-discrete q p)
view-set_field leecher ih p o t leecher jh q h k =
    view-SameRole ih p o (t (role_key leecher jh q) (pack_peer q)) jh q h k false
      (Bytes-discrete _ _) (Bytes-discrete _ _) (Bytes-discrete jh ih) (Peer-discrete q p)
view-set_field seeder ih p o t leecher jh q h k =
    other_key ih p o (t (role_key leecher jh q) (pack_peer q)) jh q h k true false (λ e. cc)
      (Bytes-discrete _ _) (Bytes-discrete _ _)
view-set_field leecher ih p o t seeder jh q h k =
    other_key ih p o (t (role_key seeder jh q) (pack_peer q)) jh q h k false true (λ e. cc)
      (Bytes-discrete _ _) (Bytes-discrete _ _)
