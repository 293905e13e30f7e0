-- ===== src/Storage/Redis/Data.antt =====
-- storage/redis/storage.go: the data storage, which keeps a context in a hash of Redis.
use mochi.Base.{Bool, true, false, ◌||◌, Option, none, some, List, [], ◌∷◌, ◌++◌, if◌then◌else◌}
use mochi.Base.Bytes.{Bytes, has_prefix}
use mochi.Result.{Error, client_error, other_error, Result, ok, err, panic, Act, and_then, codes}
use mochi.Storage.Data.{Entry, DataStorage}
use mochi.Storage.Redis.{prefix_key, is_nil}
use mochi.Storage.Redis.Read.{cleaned}

-- the commands of the client on the hash of a key
pub record DataClient (S : Type 0) : Type 0 where
  pub hset_one : Bytes → Entry → Act S (Unit {0})
  pub hset_all : Bytes → List Entry → Act S (Unit {0})
  pub hexists : Bytes → Bytes → Act S Bool
  pub hget : Bytes → Bytes → Act S Bytes
  pub hdel_all : Bytes → List Bytes → Act S (Unit {0})

abbrev pub arg_num_error_msg : Bytes
arg_num_error_msg = codes "ERR wrong number of arguments"

-- strings.Contains
unfoldable pub has_infix : Bytes → Bytes → Bool
has_infix [] ps = has_prefix [] ps
has_infix (b ∷ bs) ps = has_prefix (b ∷ bs) ps || has_infix bs ps

-- `strings.Contains(err.Error(), argNumErrorMsg)`
unfoldable pub is_arg_num : Error → Bool
is_arg_num (client_error s) = has_infix (codes s) arg_num_error_msg
is_arg_num (other_error s) = has_infix (codes s) arg_num_error_msg

module _ {S : Type 0} (c : DataClient S) where
  -- one command for each entry, until one fails
  unfoldable pub set_each : Bytes → List Entry → Act S (Unit {0})
  set_each k [] s = (ok tt, s)
  set_each k (e ∷ es) s = and_then (c.hset_one k e s) λ u s'. set_each k es s'

  -- where a server takes one argument only, the arguments go one by one
  abbrev pub retried : Result (Unit {0}) × S → Act S (Unit {0}) → Result (Unit {0}) × S
  retried (ok u, s) each = (ok u, s)
  retried (err e, s) each = let r = each s in if is_arg_num e then r else (err e, s)
  retried (panic, s) each = (panic, s)

  unfoldable pub put : Bytes → List Entry → Act S (Unit {0})
  put ctx [] s = (ok tt, s)
  put ctx (e ∷ []) s = c.hset_one (prefix_key ++ ctx) e s
  put ctx (e ∷ e' ∷ es) s =
      retried (c.hset_all (prefix_key ++ ctx) (e ∷ e' ∷ es) s)
        (set_each (prefix_key ++ ctx) (e ∷ e' ∷ es))

  unfoldable pub contains : Bytes → Bytes → Act S Bool
  contains ctx k s = cleaned false (c.hexists (prefix_key ++ ctx) k s)

  abbrev pub nil_none : Result Bytes × S → Result (Option Bytes) × S
  nil_none (ok v, s) = (ok (some v), s)
  nil_none (err e, s) = (if is_nil e then ok none else err e, s)
  nil_none (panic, s) = (panic, s)

  unfoldable pub load : Bytes → Bytes → Act S (Option Bytes)
  load ctx k s = nil_none (c.hget (prefix_key ++ ctx) k s)

  unfoldable pub delete_each : Bytes → List Bytes → Act S (Unit {0})
  delete_each k [] s = (ok tt, s)
  delete_each k (f ∷ fs) s =
      and_then (cleaned tt (c.hdel_all k (f ∷ []) s)) λ u s'. delete_each k fs s'

  unfoldable pub delete : Bytes → List Bytes → Act S (Unit {0})
  delete ctx [] s = (ok tt, s)
  delete ctx (f ∷ fs) s =
      retried (cleaned tt (c.hdel_all (prefix_key ++ ctx) (f ∷ fs) s))
        (delete_each (prefix_key ++ ctx) (f ∷ fs))

  abbrev pub redis_data : DataStorage S
  redis_data = record {
    put = put;
    contains = contains;
    load = load;
    delete = delete;
    preservable = true;
  }
