-- ===== src/Frontend/Udp/Params.antt =====
-- frontend/udp/params.go: the query of a request. net/url.QueryUnescape is that of the standard
-- library; strings.ToLower, which follows the Unicode tables, is the parameter `lower`.
use mochi.Base.{
  ℕ, zero, suc, ◌+◌, ◌*◌, Bool, ◌||◌, Option, none, some, [], ◌∷◌, ◌==◌, if◌then◌else◌, length,
}
use mochi.Base.Bytes.{Bytes, Bytes-discrete}
use mochi.Base.Map
use mochi.Base.Map.{Map}
use mochi.Result.{Error, client_error, Result, ok, err, panic, ◌>>=◌}
use mochi.Bittorrent.Hash.{hex_value}
use mochi.Bittorrent.Request.{Params}

abbrev pub err_invalid_query_escape : Error
err_invalid_query_escape = client_error "invalid query escape"

-- What stands before and behind the first byte that passes the test: bytes.IndexRune or IndexAny, and
-- the two slices.
unfoldable pub cut : (ℕ → Bool) → Bytes → Option (Bytes × Bytes)
cut test [] = none
cut test (b ∷ bs) =
    let rest = cut test bs in
    if test b
    then some ([], bs)
    else elim rest [ none ↦ none | some (before, behind) ↦ some (b ∷ before, behind) ]

-- the byte that two hexadecimal digits write
abbrev pub escaped : Option ℕ → Option ℕ → Option ℕ
escaped (some a) (some b) = some (a * 16 + b)
escaped _ _ = none

abbrev pub prefix : Option ℕ → Option Bytes → Option Bytes
prefix (some b) (some bs) = some (b ∷ bs)
prefix _ _ = none

-- url.QueryUnescape; `none` is its error
unfoldable pub query_unescape : Bytes → Option Bytes
query_unescape [] = some []
query_unescape (c ∷ []) = if c == b'%' then none else some ((if c == b'+' then b' ' else c) ∷ [])
query_unescape (c ∷ p ∷ []) =
    if c == b'%'
    then none
    else prefix (some (if c == b'+' then b' ' else c)) (query_unescape (p ∷ []))
query_unescape (c ∷ p ∷ q ∷ bs) =
    let decoded = prefix (escaped (hex_value p) (hex_value q)) (query_unescape bs) in
    let plain = prefix (some (if c == b'+' then b' ' else c)) (query_unescape (p ∷ q ∷ bs)) in
    if c == b'%' then decoded else plain

abbrev pub is_delimiter : ℕ → Bool
is_delimiter b = b == b'&' || b == b';'

-- the first field of a query and what follows its delimiter
unfoldable pub next_field : Bytes → Bytes × Bytes
next_field query = elim (cut is_delimiter query) [ none ↦ (query, []) | some fr ↦ fr ]

module _ (lower : Bytes → Bytes) where
  -- one field `key=value` of the query; an empty field is skipped
  unfoldable pub put_field : Bytes → Map Bytes Bytes → Result (Map Bytes Bytes)
  put_field [] params = ok params
  put_field (c ∷ cs) params =
      let (key, value) : Bytes × Bytes = elim (cut (λ b. b == b'=') (c ∷ cs)) [
        | none ↦ (c ∷ cs, [])
        | some kv ↦ kv
      ] in
      elim (query_unescape key) [
        | none ↦ err err_invalid_query_escape
        | some k ↦ elim (query_unescape value) [
          | none ↦ err err_invalid_query_escape
          | some v ↦ ok (Map.insert Bytes-discrete (lower k) v params)
        ]
      ]

  -- The loop over the fields, on fuel: each round takes a byte of the query at least.
  unfoldable pub parse_fields : ℕ → Bytes → Map Bytes Bytes → Result (Map Bytes Bytes)
  parse_fields fuel [] params = ok params
  parse_fields zero (b ∷ bs) params = panic
  parse_fields (suc fuel) (b ∷ bs) params = do
    params' ← put_field (next_field (b ∷ bs)).0 params
    parse_fields fuel (next_field (b ∷ bs)).1 params'

  unfoldable pub parse_query : Bytes → Result (Map Bytes Bytes)
  parse_query query =
      let q : Bytes = elim (cut (λ b. b == b'?') query) [ none ↦ query | some (path, q) ↦ q ] in
      parse_fields (length q) q []

  -- queryParams.GetString
  unfoldable pub get_string : Map Bytes Bytes → Params
  get_string params key = Map.get Bytes-discrete (lower key) params
