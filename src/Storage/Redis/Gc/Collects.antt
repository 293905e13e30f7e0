-- ===== src/Storage/Redis/Gc/Collects.antt =====
-- storage/redis/storage.go: what the garbage collector removes, against the specification that the memory
-- storage refines.
use mochi.Base.{
  ℕ, ◌≡◌, Bool, true, false, Option, none, List, [], ◌∷◌, map, ite, if◌then◌else◌, ◌⊎◌,
}
use mochi.Base.Bytes.{Bytes, Bytes-discrete}
use mochi.Base.Int.{ℤ}
use mochi.Base.Map.{is_some}
use mochi.Result.{Error, ok, err, Act}
use mochi.Storage.Redis.{ih_key, is_nil}
use mochi.Storage.Redis.Data.{is_arg_num}
use mochi.Storage.Redis.Store.{Fields}
use mochi.Storage.Redis.Gc.{GcClient, counter_of}

-- whether a list has a text
abbrev pub has : Bytes → List Bytes → Bool
has f [] = false
has f (g ∷ gs) = ite (Bytes-discrete f g) true (has f gs)

-- what is left when fields of a key are deleted
abbrev pub without : Bytes → List Bytes → Fields → Fields
without k fs t j g = ite (Bytes-discrete j k) (if has g fs then none else t j g) (t j g)

-- the time of a field among the fields and texts of a key
abbrev pub read_field : (Bytes → Option ℤ) → List (Bytes × Bytes) → Bytes → Option ℤ
read_field parse [] f = none
read_field parse ((g, txt) ∷ es) f = ite (Bytes-discrete f g) (parse txt) (read_field parse es f)

abbrev pub AreDistinct : List (Bytes × Bytes) → Type 0
AreDistinct [] = Unit
AreDistinct ((g, txt) ∷ es) = (has g (map (λ e. e.0) es) ≡ false) × AreDistinct es

abbrev pub is_swarm : Bytes → Bool
is_swarm k = is_some (counter_of k)

module _ {S : Type 0} (Good : S → Type 0) (field : S → Fields) (listed : S → Bytes → Bool) where
  abbrev pub Same : S → S → Type 0
  Same s s' =
      Good s'
      × ((j : Bytes) → listed s' j ≡ listed s j)
      × ((j g : Bytes) → field s' j g ≡ field s j g)

  abbrev pub Loses : Bytes → List Bytes → S → S → Type 0
  Loses k fs s s' =
      Good s'
      × ((j : Bytes) → listed s' j ≡ listed s j)
      × ((j g : Bytes) → field s' j g ≡ without k fs (field s) j g)

  -- What Redis and its client document: SMEMBERS gives the members of a set, HGETALL the fields of a hash, each
  -- once, HDEL deletes fields, all of them or, on a server that takes one, none and says so, HLEN counts
  -- fields, SREM removes a member, DECRBY changes no hash and no set, and Watch runs its function.
  pub record IsCollectable (parse : Bytes → Option ℤ) (c : GcClient S) : Type 0 where
    pub smembers_lists :
        (s : S)
        → Good s
        → (ks : List Bytes) × (s' : S) × (c.smembers ih_key s ≡ (ok ks, s'))
          × Same s s'
          × ((k : Bytes) → listed s k ≡ true → has k ks ≡ true)
    pub hget_all_reads :
        (k : Bytes) (s : S)
        → Good s
        → is_swarm k ≡ true
        → (es : List (Bytes × Bytes)) × (s' : S) × (c.hget_all k s ≡ (ok es, s'))
          × Same s s'
          × AreDistinct es
          × ((f : Bytes) → field s k f ≡ read_field parse es f)
    pub hdel_all_deletes :
        (k : Bytes) (fs : List Bytes) (s : S)
        → Good s
        → is_swarm k ≡ true
        → ((n : ℕ) × (s' : S) × (c.hdel_all k fs s ≡ (ok n, s')) × Loses k fs s s')
          ⊎ ((e : Error) × (c.hdel_all k fs s ≡ (err e, s))
              × (is_nil e ≡ false)
              × (is_arg_num e ≡ true))
    pub hdel_one_deletes :
        (k f : Bytes) (s : S)
        → Good s
        → is_swarm k ≡ true
        → (n : ℕ) × (s' : S) × (c.hdel_one k f s ≡ (ok n, s')) × Loses k (f ∷ []) s s'
    pub decr_by_keeps :
        (k : Bytes) (n : ℕ) (s : S)
        → Good s
        → (s' : S) × (c.decr_by k n s ≡ (ok tt, s')) × Same s s'
    pub hlen_counts :
        (k : Bytes) (s : S)
        → Good s
        → is_swarm k ≡ true
        → (n : ℕ) × (s' : S) × (c.hlen k s ≡ (ok n, s'))
          × Same s s'
          × (n ≡ 0 → (f : Bytes) → field s k f ≡ none)
    pub srem_removes :
        (k : Bytes) (s : S)
        → Good s
        → (s' : S) × (c.srem ih_key k s ≡ (ok tt, s'))
          × Good s'
          × ((j : Bytes) → listed s' j ≡ ite (Bytes-discrete j k) false (listed s j))
          × ((j g : Bytes) → field s' j g ≡ field s j g)
    pub watch_runs : (k : Bytes) (f : Act S (Unit {0})) (s : S) → c.watch k f s ≡ f s

  -- Every swarm that has a peer is listed.
  abbrev pub IsListed : S → Type 0
  IsListed s =
      (k : Bytes) → is_swarm k ≡ true → listed s k ≡ false → (f : Bytes) → field s k f ≡ none
