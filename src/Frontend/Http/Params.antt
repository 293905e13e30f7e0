-- ===== src/Frontend/Http/Params.antt =====
-- frontend/http/params.go: the arguments of a query. fasthttp.Args is not of this repository: its methods
-- are the fields of a record.
use mochi.Base.{Bool, Option, List, [], ◌∷◌, ◌++◌}
use mochi.Base.Bytes.{Bytes}
use mochi.Base.Int.{ℤ}
use mochi.Result.{Result, ok, err, panic, codes, ◌>>=◌}
use mochi.Bittorrent.Hash.{InfoHash, new_info_hash}
use mochi.Bittorrent.Request.{Params}

-- fasthttp.ErrNoArgValue, or any other error of GetUint
pub data ArgError : Type 0 where
  no_arg_value bad_value : ArgError

-- Peek of a key that is not there is nil; GetUint returns a number beside its error.
pub record Args : Type 0 where
  pub peek : Bytes → Option Bytes
  pub peek_multi : Bytes → List Bytes
  pub get_uint : Bytes → ℤ × Option ArgError
  pub get_bool : Bytes → Bool

-- queryParams.GetString
unfoldable pub get_string : Args → Params
get_string qp key = qp.peek key

-- the body of the loop of InfoHashes: what is no hash is skipped
unfoldable pub with_hash : Result InfoHash → List InfoHash → Result (List InfoHash)
with_hash (ok ih) ihs = ok (ihs ++ ih ∷ [])
with_hash (err e) ihs = ok ihs
with_hash panic ihs = panic

unfoldable pub collect_hashes : List Bytes → List InfoHash → Result (List InfoHash)
collect_hashes [] ihs = ok ihs
collect_hashes (bb ∷ bbs) ihs = do ihs' ← with_hash (new_info_hash bb) ihs; collect_hashes bbs ihs'

unfoldable pub info_hashes : Args → Result (List InfoHash)
info_hashes qp = collect_hashes (qp.peek_multi (codes "info_hash")) []
