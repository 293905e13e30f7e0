-- ===== src/Storage/Pg/Pool.antt =====
-- storage/pg/storage.go: the pool of connections of github.com/jackc/pgx, whose calls are the fields of a
-- record, and the batch of queries in a transaction.
use mochi.Base.{ℕ, Bool, false, Option, List, if◌then◌else◌}
use package.text.Mathlib.Text.{◌==◌ as str_eq}
use mochi.Base.Bytes.{Bytes}
use mochi.Base.Int.{ℤ}
use mochi.Result.{Error, client_error, other_error, Result, ok, err, panic, Act, codes}

-- a value of pgx.NamedArgs, and the names
pub data Arg : Type 0 where
  text : Bytes → Arg
  blob : Bytes → Arg
  blobs : List Bytes → Arg
  number : ℕ → Arg
  flag : Bool → Arg
  time : ℤ → Arg

abbrev pub NamedArgs : Type 0
NamedArgs = List (Bytes × Arg)

abbrev pub p_ctx : Bytes
p_ctx = codes "context"

abbrev pub p_key : Bytes
p_key = codes "key"

abbrev pub p_value : Bytes
p_value = codes "value"

abbrev pub p_info_hash : Bytes
p_info_hash = codes "info_hash"

abbrev pub p_peer_id : Bytes
p_peer_id = codes "peer_id"

abbrev pub p_address : Bytes
p_address = codes "address"

abbrev pub p_port : Bytes
p_port = codes "port"

abbrev pub p_v6 : Bytes
p_v6 = codes "is_v6"

abbrev pub p_seeder : Bytes
p_seeder = codes "is_seeder"

abbrev pub p_created : Bytes
p_created = codes "created"

abbrev pub p_count : Bytes
p_count = codes "count"

-- A row, scanned into a number of places of which those at the named indexes are kept: the identifier, the
-- address and the port of a peer, or the counts of seeders and of leechers.
pub record Row : Type 0 where
  pub scan_peer : (width id_index ip_index port_index : ℕ) → Result (Bytes × Bytes × ℤ)
  pub scan_counts : (width seeders_index leechers_index : ℕ) → Result (ℕ × ℕ)

-- The names of the columns, the rows that Next goes through, and what Err says behind them.
pub record Rows : Type 0 where
  pub fields : List Bytes
  pub rows : List Row
  pub error : Option Error

-- A query may have no arguments; `query_bytes` and `query_uint32` are QueryRow and Scan of one value. A
-- transaction is part of the state.
pub record Pool (S : Type 0) : Type 0 where
  pub exec : Bytes → NamedArgs → Act S (Unit {0})
  pub query : Bytes → NamedArgs → Act S Rows
  pub query_bytes : Bytes → NamedArgs → Act S Bytes
  pub query_uint32 : Bytes → NamedArgs → Act S ℕ
  pub begin : Act S (Unit {0})
  pub send_batch : List (Bytes × NamedArgs) → Act S (Unit {0})
  pub commit : Act S (Unit {0})
  pub rollback : Act S (Unit {0})

-- pgx.ErrNoRows
abbrev pub err_no_rows : Error
err_no_rows = other_error "no rows in result set"

unfoldable pub is_no_rows : Error → Bool
is_no_rows (client_error s) = false
is_no_rows (other_error s) = str_eq s "no rows in result set"

-- noResultErr, with the value that is left where there are no rows
unfoldable pub no_result_err : {A : Type 0} → A → Result A → Result A
no_result_err a (ok b) = ok b
no_result_err a (err e) = if is_no_rows e then ok a else err e
no_result_err a panic = panic

-- The text of the source also has both errors.
abbrev pub err_roll_back : Error
err_roll_back = other_error "error occurred while rolling back failed query"

module _ {S : Type 0} (pool : Pool S) where
  -- after the batch: the commit, or the rollback, whose own error takes over
  unfoldable pub rolled_back : Error → Result (Unit {0}) × S → Result (Unit {0}) × S
  rolled_back e (ok u, s) = (err e, s)
  rolled_back e (err e', s) = (err err_roll_back, s)
  rolled_back e (panic, s) = (panic, s)

  unfoldable pub sent : Result (Unit {0}) × S → Result (Unit {0}) × S
  sent (ok u, s) = pool.commit s
  sent (err e, s) = rolled_back e (pool.rollback s)
  sent (panic, s) = (panic, s)

  unfoldable pub begun : List (Bytes × NamedArgs) → Result (Unit {0}) × S → Result (Unit {0}) × S
  begun batch (ok u, s) = sent (pool.send_batch batch s)
  begun batch (err e, s) = (err e, s)
  begun batch (panic, s) = (panic, s)

  unfoldable pub tx_batch : List (Bytes × NamedArgs) → Act S (Unit {0})
  tx_batch batch s = begun batch (pool.begin s)
