-- ===== src/Storage/Redis/Tables.antt =====
-- storage/redis/storage.go: the data storage is a table of tables, also where the server takes one argument of
-- HSET and HDEL at a time.
use mochi.Base.{
  ◌≡◌, ◌⊎◌, refl, ap, ◌∙◌, inl, inr, true, false, Option, none, some, List, [], ◌∷◌, ◌++◌, ite,
  drop,
}
use mochi.Base.Bytes.{Bytes, Bytes-discrete}
use mochi.Base.Map.{is_some}
use mochi.Result.{Error, Result, ok, err, Act}
use mochi.Storage.Data.{
  stored-same, removed-same, changed_twice, changed_same, Entry, IsTable, stored, removed, changed,
}
use mochi.Storage.Redis.{prefix_key, err_nil, is_nil, no_result_err}
use mochi.Storage.Redis.Read.{cleaned}
use mochi.Storage.Redis.Data.{
  DataClient, is_arg_num, set_each, put, contains, load, delete_each, delete, redis_data, retried,
  nil_none,
}

abbrev pub Tables : Type 0
Tables = Bytes → Bytes → Option Bytes

abbrev pub read_value : Option Bytes → Result Bytes
read_value none = err err_nil
read_value (some v) = ok v

-- A call succeeds and changes the table of a key.
abbrev pub Turns :
    {S : Type 0}
    → (S → Type 0)
    → (S → Tables)
    → Bytes
    → ((Bytes → Option Bytes) → Bytes → Option Bytes)
    → S
    → Result (Unit {0}) × S
    → Type 0
Turns {S = S} Good hash k f s o =
    (s' : S) × (o ≡ (ok tt, s'))
    × Good s'
    × ((j g : Bytes) → hash s' j g ≡ changed k f (hash s) j g)

-- A call fails as one that takes one argument only, and changes nothing.
abbrev pub IsRefused : {S : Type 0} → S → Result (Unit {0}) × S → Type 0
IsRefused s o = (e : Error) × (o ≡ (err e, s)) × (is_arg_num e ≡ true)

-- What Redis documents of hashes: HSET and HDEL set and delete, a server of an old version refuses more than
-- one argument, and HEXISTS and HGET read. `Good` says that no key of the storage holds another type of value.
pub record IsHashes {S : Type 0} (Good : S → Type 0) (hash : S → Tables) (c : DataClient S)
    : Type 0 where
  pub hset_one_sets :
      (k : Bytes) (e : Entry) (s : S)
      → Good s
      → Turns Good hash k (stored (e ∷ [])) s (c.hset_one k e s)
  pub hset_all_sets :
      (k : Bytes) (es : List Entry) (s : S)
      → Good s
      → Turns Good hash k (stored es) s (c.hset_all k es s) ⊎ IsRefused s (c.hset_all k es s)
  pub hdel_one_deletes :
      (k f : Bytes) (s : S)
      → Good s
      → Turns Good hash k (removed (f ∷ [])) s (c.hdel_all k (f ∷ []) s)
  pub hdel_all_deletes :
      (k : Bytes) (fs : List Bytes) (s : S)
      → Good s
      → Turns Good hash k (removed fs) s (c.hdel_all k fs s)
        ⊎ ((e : Error) × (c.hdel_all k fs s ≡ (err e, s))
            × (is_arg_num e ≡ true)
            × (is_nil e ≡ false))
  pub hexists_reads :
      (k f : Bytes) (s : S) → Good s → c.hexists k f s ≡ (ok (is_some (hash s k f)), s)
  pub hget_reads : (k f : Bytes) (s : S) → Good s → c.hget k f s ≡ (read_value (hash s k f), s)

-- the table of a context is that of its key
changed-prefix :
    (c : Bytes) (f : (Bytes → Option Bytes) → Bytes → Option Bytes) (t : Tables) (c' k : Bytes)
    → changed (prefix_key ++ c) f t (prefix_key ++ c') k
      ≡ changed c f (λ x. t (prefix_key ++ x)) c' k
changed-prefix c f t c' k =
    go (Bytes-discrete (prefix_key ++ c') (prefix_key ++ c)) (Bytes-discrete c' c)
  where
    go :
        (d : Dec (prefix_key ++ c' ≡ prefix_key ++ c)) (d' : Dec (c' ≡ c))
        → ite d (f (t (prefix_key ++ c)) k) (t (prefix_key ++ c') k)
          ≡ ite d' (f (t (prefix_key ++ c)) k) (t (prefix_key ++ c') k)
    go (yes e) (yes e') = refl
    go (yes e) (no n) = absurd (n (ap (drop 4) e))
    go (no n) (yes e') = absurd (n (ap (λ x. prefix_key ++ x) e'))
    go (no n) (no n') = refl

module _ {S : Type 0} (Good : S → Type 0) (hash : S → Tables) (c : DataClient S)
    (laws : IsHashes Good hash c) where
  set_each-Turns :
      (k : Bytes) (es : List Entry) (s : S)
      → Good s
      → Turns Good hash k (stored es) s (set_each c k es s)
  unfolding set_each
  set_each-Turns k [] s g = (s, refl, g, changed_same k (stored []) (hash s) λ l. refl)
  set_each-Turns k (e ∷ es) s g =
      let (s', q, g', v) = laws.hset_one_sets k e s g in
      let (s'', q', g'', v') = set_each-Turns k es s' g' in
      (
        s'',
        rw q q',
        g'',
        changed_twice k (stored (e ∷ [])) (stored es) (hash s) (hash s') (hash s'') (stored-same es)
            v v',
      )

  delete_each-Turns :
      (k : Bytes) (fs : List Bytes) (s : S)
      → Good s
      → Turns Good hash k (removed fs) s (delete_each c k fs s)
  unfolding delete_each no_result_err
  delete_each-Turns k [] s g = (s, refl, g, changed_same k (removed []) (hash s) λ l. refl)
  delete_each-Turns k (f ∷ fs) s g =
      let (s', q, g', v) = laws.hdel_one_deletes k f s g in
      let (s'', q', g'', v') = delete_each-Turns k fs s' g' in
      (
        s'',
        rw q q',
        g'',
        changed_twice k (removed (f ∷ [])) (removed fs) (hash s) (hash s') (hash s'')
            (removed-same fs) v v',
      )

  retried_ok :
      (k : Bytes) (f : (Bytes → Option Bytes) → Bytes → Option Bytes) (s : S)
      (o : Result (Unit {0}) × S) (each : Act S (Unit {0}))
      → Turns Good hash k f s o ⊎ IsRefused s o
      → Turns Good hash k f s (each s)
      → Turns Good hash k f s (retried c o each)
  retried_ok k f s o each (inl (s', q, g, v)) h = (s', rw q refl, g, v)
  retried_ok k f s o each (inr (e, q, a)) (s', q', g, v) = (s', rw (q, a) q', g, v)

  cleaned_ok :
      (k : Bytes) (fs : List Bytes) (s : S)
      → Good s
      → Turns Good hash k (removed fs) s (cleaned tt (c.hdel_all k fs s))
        ⊎ IsRefused s (cleaned tt (c.hdel_all k fs s))
  unfolding no_result_err
  cleaned_ok k fs s g = elim (laws.hdel_all_deletes k fs s g) [
    | inl (s', q, g', v) ↦ inl (s', rw q refl, g', v)
    | inr (e, q, a, n) ↦ inr (e, rw (q, n) refl, a)
  ]

  -- the tables of the contexts
  abbrev pub contexts : S → Tables
  contexts s x = hash s (prefix_key ++ x)

  context_Turns :
      (x : Bytes) (f : (Bytes → Option Bytes) → Bytes → Option Bytes) (s : S)
      (o : Result (Unit {0}) × S)
      → Turns Good hash (prefix_key ++ x) f s o
      → Turns Good contexts x f s o
  context_Turns x f s o (s', q, g, v) =
      (s', q, g, λ x' k. v (prefix_key ++ x') k ∙ changed-prefix x f (hash s) x' k)

  put_stores :
      (x : Bytes) (es : List Entry) (s : S)
      → Good s
      → Turns Good contexts x (stored es) s (put c x es s)
  unfolding put
  put_stores x [] s g = (s, refl, g, changed_same x (stored []) (contexts s) λ l. refl)
  put_stores x (e ∷ []) s g =
      context_Turns x (stored (e ∷ [])) s _ (laws.hset_one_sets (prefix_key ++ x) e s g)
  put_stores x (e ∷ e' ∷ es) s g = context_Turns x (stored (e ∷ e' ∷ es)) s _ (
      retried_ok (prefix_key ++ x) (stored (e ∷ e' ∷ es)) s _
        (set_each c (prefix_key ++ x) (e ∷ e' ∷ es))
        (laws.hset_all_sets (prefix_key ++ x) (e ∷ e' ∷ es) s g)
        (set_each-Turns (prefix_key ++ x) (e ∷ e' ∷ es) s g))

  delete_removes :
      (x : Bytes) (fs : List Bytes) (s : S)
      → Good s
      → Turns Good contexts x (removed fs) s (delete c x fs s)
  unfolding delete
  delete_removes x [] s g = (s, refl, g, changed_same x (removed []) (contexts s) λ l. refl)
  delete_removes x (f ∷ fs) s g = context_Turns x (removed (f ∷ fs)) s _ (
      retried_ok (prefix_key ++ x) (removed (f ∷ fs)) s _ (delete_each c (prefix_key ++ x) (f ∷ fs))
        (cleaned_ok (prefix_key ++ x) (f ∷ fs) s g)
        (delete_each-Turns (prefix_key ++ x) (f ∷ fs) s g))

  load_reads : (x k : Bytes) (s : S) → Good s → load c x k s ≡ (ok (contexts s x k), s)
  unfolding load is_nil
  load_reads x k s g =
      rw (laws.hget_reads (prefix_key ++ x) k s g) (go (hash s (prefix_key ++ x) k))
    where
      go : (o : Option Bytes) → nil_none c (read_value o, s) ≡ (ok o, s)
      go none = refl
      go (some v) = refl

  -- The data storage over Redis works as a table of tables, as the memory data store does, whether the server
  -- takes many arguments of HSET and HDEL or refuses more than one, by what Redis documents of hashes.
  pub redis_data-IsTable : IsTable Good contexts (redis_data c)
  unfolding contains no_result_err
  redis_data-IsTable = record {
    put_stores = put_stores;
    delete_removes = delete_removes;
    contains_reads = λ x k s g. rw (laws.hexists_reads (prefix_key ++ x) k s g) refl;
    load_reads = load_reads;
  }
