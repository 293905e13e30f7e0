-- ===== src/Storage/Pg/Peers.antt =====
-- storage/pg/storage.go: the calls on peers. strings.ToUpper is a parameter.
use mochi.Base.{
  ℕ, suc, ◌-◌, ◌^◌, Bool, true, false, ◌&&◌, Option, none, some, List, [], ◌∷◌, ◌++◌, ltb, leb,
  ◌==◌, if◌then◌else◌, length,
}
use mochi.Base.Bytes.{Bytes, bytes_eq}
use mochi.Base.Int.{ℤ, to_uint}
use mochi.Netip.{Addr, as_slice, addr_from_slice, is6}
use mochi.Result.{
  Error, other_error, Result, ok, err, panic, Act, ◌>>=◌, and_then, err_invalid_ip,
  err_resource_does_not_exist,
}
use mochi.Bittorrent.Peer.{Peer, addr, new_peer_id}
use mochi.Bittorrent.Hash.{InfoHash}
use mochi.Storage.Pg.Config.{Config}
use mochi.Storage.Pg.Pool.{
  Pool, NamedArgs, blob, number, flag, time, Row, Rows, p_info_hash, p_peer_id, p_address, p_port,
  p_v6, p_seeder, p_created, p_count, no_result_err, tx_batch,
}

-- The text of the source also has the names of the columns.
abbrev pub err_required_columns_not_found : Error
err_required_columns_not_found = other_error "one or more required columns not found in result set"

abbrev pub peer_args : InfoHash → Peer → NamedArgs
peer_args ih peer =
    (p_info_hash, blob ih)
    ∷ (p_peer_id, blob peer.id)
    ∷ (p_address, blob (as_slice (addr peer)))
    ∷ (p_port, number peer.port)
    ∷ []

module _ {S : Type 0} (pool : Pool S) (cfg : Config) where
  unfoldable pub put_peer : ℤ → InfoHash → Peer → Bool → Act S (Unit {0})
  put_peer now ih peer seeder = pool.exec cfg.peer.add_query (
      peer_args ih peer
      ++ ((p_seeder, flag seeder) ∷ (p_v6, flag (is6 (addr peer))) ∷ (p_created, time now) ∷ []))

  unfoldable pub del_peer : InfoHash → Peer → Bool → Act S (Unit {0})
  del_peer ih peer seeder =
      pool.exec cfg.peer.del_query (peer_args ih peer ++ (p_seeder, flag seeder) ∷ [])

  unfoldable pub put_seeder : ℤ → InfoHash → Peer → Act S (Unit {0})
  put_seeder now ih peer = put_peer now ih peer true

  unfoldable pub delete_seeder : InfoHash → Peer → Act S (Unit {0})
  delete_seeder ih peer = del_peer ih peer true

  unfoldable pub put_leecher : ℤ → InfoHash → Peer → Act S (Unit {0})
  put_leecher now ih peer = put_peer now ih peer false

  unfoldable pub delete_leecher : InfoHash → Peer → Act S (Unit {0})
  delete_leecher ih peer = del_peer ih peer false

  unfoldable pub graduate_leecher : InfoHash → Peer → Act S (Unit {0})
  graduate_leecher ih peer = tx_batch pool (
      (cfg.peer.graduate_query, peer_args ih peer)
      ∷ (cfg.downloads.increment_query, (p_info_hash, blob ih) ∷ [])
      ∷ [])

-- the indexes of the three columns of a peer, where they are found
abbrev pub Columns : Type 0
Columns = Option ℕ × Option ℕ × Option ℕ

module _ (upper : Bytes → Bytes) (cfg : Config) where
  -- the switch over the name of one field
  unfoldable pub place_peer : ℕ → Bytes → Columns → Columns
  place_peer i name (id, ip, port) =
      if bytes_eq name cfg.announce.peer_id_column
      then (some i, ip, port)
      else if bytes_eq name cfg.announce.address_column
      then (id, some i, port)
      else if bytes_eq name cfg.announce.port_column
      then (id, ip, some i)
      else (id, ip, port)

  -- the loop over the fields, from the index `i` on
  unfoldable pub peer_columns : ℕ → List Bytes → Columns → Columns
  peer_columns i [] found = found
  peer_columns i (f ∷ fs) found = peer_columns (suc i) fs (place_peer i (upper f) found)

  unfoldable pub place_counts : ℕ → Bytes → Option ℕ × Option ℕ → Option ℕ × Option ℕ
  place_counts i name (si, li) =
      if bytes_eq name cfg.peer.count_seeders_column
      then (some i, li)
      else if bytes_eq name cfg.peer.count_leechers_column
      then (si, some i)
      else (si, li)

  unfoldable pub count_columns : ℕ → List Bytes → Option ℕ × Option ℕ → Option ℕ × Option ℕ
  count_columns i [] found = found
  count_columns i (f ∷ fs) found = count_columns (suc i) fs (place_counts i (upper f) found)

abbrev pub max_index : ℕ → ℕ → ℕ → ℕ
max_index id ip port =
    if leb ip id && leb port id then id else if leb id ip && leb port ip then ip else port

-- a peer out of a scanned row
abbrev pub peer_of : Bytes → ℤ → Option Addr → Result Peer
peer_of id port (some a) = ok (record { id = id; ip = a; port = to_uint (2 ^ 16) port })
peer_of id port none = err err_invalid_ip

-- `into[i] = &x` for each of the indexes, in a slice of the given width
unfoldable pub placed : List ℕ → ℕ → Result ℕ
placed [] width = ok width
placed (i ∷ is) width = let rest = placed is width in if ltb i width then rest else panic

-- rows.Scan into the places of a peer
unfoldable pub scan_row : ℕ → ℕ → ℕ → Row → Result (Bytes × Bytes × ℤ)
scan_row id ip port r = do
  width ← placed (id ∷ ip ∷ port ∷ []) (suc (max_index id ip port))
  r.scan_peer width id ip port

unfoldable pub scanned : Result (Bytes × Bytes × ℤ) → Result Peer
scanned r = do (id, ip, port) ← r; id' ← new_peer_id id; peer_of id' port (addr_from_slice ip)

-- The loop over the rows: the peers so far, and the error of the last row that was read. What cannot be read
-- is logged and left out.
abbrev pub with_row :
    Result Peer
    → List Peer
    → (List Peer → Option Error → Result (List Peer × Option Error))
    → Result (List Peer × Option Error)
with_row (ok p) peers next = next (peers ++ p ∷ []) none
with_row (err e) peers next = next peers (some e)
with_row panic peers next = panic

unfoldable pub scan_rows :
    ℕ → ℕ → ℕ → ℕ → List Row → List Peer → Option Error → Result (List Peer × Option Error)
scan_rows max_count id ip port [] peers e = ok (peers, e)
scan_rows max_count id ip port (r ∷ rs) peers e =
    let next =
      with_row (scanned (scan_row id ip port r)) peers (scan_rows max_count id ip port rs) in
    if ltb (length peers) max_count then next else ok (peers, e)

unfoldable pub read_rows : ℕ → Columns → List Row → Result (List Peer × Option Error)
read_rows max_count (some id, some ip, some port) rows = scan_rows max_count id ip port rows [] none
read_rows max_count _ rows = ok ([], some err_required_columns_not_found)

-- An error is forgotten where there are peers.
unfoldable pub settled : List Peer × Option Error → Result (List Peer)
settled ([], none) = err err_resource_does_not_exist
settled ([], some e) = err e
settled (p ∷ ps, e) = ok (p ∷ ps)

module _ {S : Type 0} (upper : Bytes → Bytes) (pool : Pool S) (cfg : Config) where
  unfoldable pub rows_read : ℕ → Result Rows × S → Result (List Peer × Option Error) × S
  rows_read max_count (ok rows, s) =
      (read_rows max_count (peer_columns upper cfg 0 rows.fields (none, none, none)) rows.rows, s)
  rows_read max_count (err e, s) = (ok ([], some e), s)
  rows_read max_count (panic, s) = (panic, s)

  unfoldable pub get_peers : InfoHash → Bool → ℕ → Bool → S → Result (List Peer × Option Error) × S
  get_peers ih seeders max_count is_v6 s = rows_read max_count (
      pool.query cfg.announce.query
        ((p_info_hash, blob ih)
          ∷ (p_seeder, flag seeders)
          ∷ (p_v6, flag is_v6)
          ∷ (p_count, number max_count)
          ∷ [])
        s)

  -- the leechers behind the seeders, where those came without an error
  unfoldable pub with_leechers :
      InfoHash → ℕ → Bool → List Peer × Option Error → S → Result (List Peer × Option Error) × S
  with_leechers ih num_want v6 (peers, some e) s = (ok (peers, some e), s)
  with_leechers ih num_want v6 (peers, none) s =
      and_then (get_peers ih false (num_want - length peers) v6 s)
        λ (more, e) s'. (ok (peers ++ more, e), s')

  -- the peers before the last tests: leechers for a seeder, and seeders and leechers for a leecher
  unfoldable pub candidates : InfoHash → Bool → ℕ → Bool → S → Result (List Peer × Option Error) × S
  candidates ih true num_want v6 s = get_peers ih false num_want v6 s
  candidates ih false num_want v6 s =
      and_then (get_peers ih true num_want v6 s) (with_leechers ih num_want v6)

  unfoldable pub announce_peers : InfoHash → Bool → ℕ → Bool → Act S (List Peer)
  announce_peers ih for_seeder num_want v6 s =
      and_then (candidates ih for_seeder num_want v6 s) λ found s'. (settled found, s')

  -- the counts of the first row; there may be none
  unfoldable pub counts_of : Option ℕ × Option ℕ → Row → Result (ℕ × ℕ)
  counts_of (some si, some li) row = do
    width ← placed (si ∷ li ∷ []) (suc (if ltb li si then si else li))
    no_result_err (0, 0) (row.scan_counts width si li)
  counts_of _ row = err err_required_columns_not_found

  unfoldable pub first_counts : Rows → List Row → Result (ℕ × ℕ)
  first_counts rows [] = ok (0, 0)
  first_counts rows (row ∷ rest) =
      counts_of (count_columns upper cfg 0 rows.fields (none, none)) row

  unfoldable pub counts_read : Result Rows → Result (ℕ × ℕ)
  counts_read (ok rows) = first_counts rows rows.rows
  counts_read (err e) = no_result_err (0, 0) (err e)
  counts_read panic = panic

  -- seeders and leechers
  unfoldable pub count_peers : InfoHash → Act S (ℕ × ℕ)
  count_peers ih s =
      let (r, s') =
        if length ih == 0
        then pool.query cfg.peer.count_query [] s
        else pool.query (cfg.peer.count_query ++ (b' ' ∷ cfg.peer.by_info_hash_clause))
            ((p_info_hash, blob ih) ∷ []) s in
      (counts_read r, s')

  -- leechers, seeders and snatches
  unfoldable pub scrape_swarm : InfoHash → Act S (ℕ × ℕ × ℕ)
  scrape_swarm ih s = and_then (count_peers ih s) λ (seeders, leechers) s'.
      if length cfg.downloads.get_query == 0
      then (ok (leechers, seeders, 0), s')
      else let (r, s'') =
          pool.query_uint32 cfg.downloads.get_query ((p_info_hash, blob ih) ∷ []) s' in
        and_then (no_result_err 0 r, s'') λ snatched t. (ok (leechers, seeders, snatched), t)

  unfoldable pub ping : Act S (Unit {0})
  ping = pool.exec cfg.ping_query []
