-- ===== src/Storage/Pg/Answers.antt =====
-- storage/pg/storage.go: what AnnouncePeers answers, whatever the database holds.
use mochi.Base.{
  ℕ, suc, ◌-◌, ◌^◌, ◌≤◌, ◌<◌, ◌≡◌, ◌≢◌, refl, Bool, true, false, Option, none, some, List, [], ◌∷◌,
  ◌++◌, arith, ltb, lt→ltb, length, length-append, All, All-append, ==_iff, ◌==◌, Bool-cases, inl,
  inr,
}
use mochi.Base.Bytes.{Bytes}
use mochi.Base.Int.{ℤ, pos, negsuc, to_uint}
use mochi.Netip.{Addr, addr_from_slice}
use mochi.Result.{Error, Result, ok, err, panic, and_then}
use mochi.Bittorrent.Peer.{Peer, new_peer_id, peer_id_len}
use mochi.Bittorrent.Hash.{InfoHash}
use mochi.Storage.Pg.Config.{Config}
use mochi.Storage.Pg.Pool.{Pool, NamedArgs, Row, Rows}
use mochi.Storage.Pg.Peers.{
  Columns, max_index, placed, scan_row, peer_of, scanned, with_row, scan_rows, read_rows, settled,
  rows_read, get_peers, with_leechers, candidates, announce_peers,
}

-- A row whose scan does not panic where the places have indexes in range.
abbrev pub IsQuiet : Row → Type 0
IsQuiet r =
    (width id ip port : ℕ)
    → id < width
    → ip < width
    → port < width
    → r.scan_peer width id ip port ≢ panic

-- What a query gives: rows that do not panic, or an error.
abbrev pub Rowed : Result Rows → Type 0
Rowed (ok rows) = All IsQuiet rows.rows
Rowed (err e) = Unit
Rowed panic = ⊥

-- A peer with an identifier of twenty bytes and a port of 16 bits.
abbrev pub IsPeer : Peer → Type 0
IsPeer p = (length p.id ≡ 20) × (p.port < 2 ^ 16)

-- Peers, as many as are wanted at most.
abbrev pub Found : ℕ → Result (List Peer × Option Error) → Type 0
Found n (ok (ps, e)) = (length ps ≤ n) × All IsPeer ps
Found n (err e) = ⊥
Found n panic = ⊥

-- The same, and one at least; or an error.
abbrev pub Answered : ℕ → Result (List Peer) → Type 0
Answered n (ok ps) = (1 ≤ length ps) × (length ps ≤ n) × All IsPeer ps
Answered n (err e) = Unit
Answered n panic = ⊥

-- A scanned peer, where there is one.
abbrev Scanned : Result Peer → Type 0
Scanned (ok p) = IsPeer p
Scanned (err e) = Unit
Scanned panic = ⊥

to_uint16_lt : (z : ℤ) → to_uint (2 ^ 16) z < 2 ^ 16
unfolding to_uint
to_uint16_lt (pos n) = omega arith
to_uint16_lt (negsuc n) = omega arith

peer_of-Scanned :
    (id : Bytes) (port : ℤ) (a : Option Addr) → length id ≡ 20 → Scanned (peer_of id port a)
peer_of-Scanned id port none h = tt
peer_of-Scanned id port (some a) h = (h, to_uint16_lt port)

scanned-Scanned : (r : Result (Bytes × Bytes × ℤ)) → r ≢ panic → Scanned (scanned r)
unfolding scanned new_peer_id
scanned-Scanned (ok (id, ip, port)) h = elim (Bool-cases (length id == peer_id_len)) [
  | inl e ↦ rw e (peer_of-Scanned id port (addr_from_slice ip) ((==_iff _ _).0 e))
  | inr e ↦ rw e tt
]
scanned-Scanned (err e) h = tt
scanned-Scanned panic h = absurd (h refl)

max_index_le :
    (id ip port : ℕ)
    → (id ≤ max_index id ip port) × (ip ≤ max_index id ip port) × (port ≤ max_index id ip port)
max_index_le id ip port = (ground arith, ground arith, ground arith)

-- mochi writes to no place out of range
scan_row-ne-panic : (id ip port : ℕ) (r : Row) → IsQuiet r → scan_row id ip port r ≢ panic
unfolding scan_row placed
scan_row-ne-panic id ip port r q =
    let (a, b, c) = max_index_le id ip port in
    let width = suc (max_index id ip port) in
    rw
      (
        lt→ltb id width (omega (arith, a)),
        lt→ltb ip width (omega (arith, b)),
        lt→ltb port width (omega (arith, c)),
      )
      (q width id ip port (omega (arith, a)) (omega (arith, b)) (omega (arith, c)))

settled-Answered :
    (n : ℕ) (found : List Peer × Option Error) → Found n (ok found) → Answered n (settled found)
unfolding settled
settled-Answered n ([], none) h = tt
settled-Answered n ([], some e) h = tt
settled-Answered n (p ∷ ps, e) h = (omega arith, h.0, h.1)

with_row-Found :
    (n : ℕ) (m : Result Peer) (peers : List Peer)
    (next : List Peer → Option Error → Result (List Peer × Option Error))
    → Scanned m
    → length peers < n
    → All IsPeer peers
    → ((ps : List Peer) (e : Option Error) → length ps ≤ n → All IsPeer ps → Found n (next ps e))
    → Found n (with_row m peers next)
with_row-Found n (ok p) peers next k l h go =
    go (peers ++ p ∷ []) none (omega (arith, l, length-append peers (p ∷ [])))
      (All-append IsPeer peers (p ∷ []) h (k, tt))
with_row-Found n (err e) peers next k l h go = go peers (some e) (omega arith) h
with_row-Found n panic peers next k l h go = absurd k

scan_rows-Found :
    (n id ip port : ℕ) (rows : List Row) (peers : List Peer) (e : Option Error)
    → All IsQuiet rows
    → length peers ≤ n
    → All IsPeer peers
    → Found n (scan_rows n id ip port rows peers e)
unfolding scan_rows
scan_rows-Found n id ip port [] peers e q l h = (l, h)
scan_rows-Found n id ip port (r ∷ rs) peers e q l h = elim (Bool-cases (ltb (length peers) n)) [
  | inl more ↦ rw more (
      with_row-Found n (scanned (scan_row id ip port r)) peers (scan_rows n id ip port rs)
        (scanned-Scanned _ (scan_row-ne-panic id ip port r q.0)) (ground arith) h
        (λ ps x l' h'. scan_rows-Found n id ip port rs ps x q.1 l' h'))
  | inr full ↦ rw full (l, h)
]

read_rows-Found :
    (n : ℕ) (found : Columns) (rows : List Row)
    → All IsQuiet rows
    → Found n (read_rows n found rows)
unfolding read_rows
read_rows-Found n (some id, some ip, some port) rows q =
    scan_rows-Found n id ip port rows [] none q (omega arith) tt
read_rows-Found n (none, b, c) rows q = (omega arith, tt)
read_rows-Found n (some a, none, c) rows q = (omega arith, tt)
read_rows-Found n (some a, some b, none) rows q = (omega arith, tt)

-- `and_then` behind what is found
found_then :
    {S B : Type 0} (P : Result B → Type 0) (n : ℕ) (o : Result (List Peer × Option Error) × S)
    (f : List Peer × Option Error → S → Result B × S)
    → Found n o.0
    → ((x : List Peer × Option Error) (s : S) → Found n (ok x) → P (f x s).0)
    → P (and_then o f).0
found_then P n (ok x, s) f h k = k x s h
found_then P n (err e, s) f h k = absurd h
found_then P n (panic, s) f h k = absurd h

module _ {S : Type 0} (upper : Bytes → Bytes) (pool : Pool S) (cfg : Config)
    (quiet : (q : Bytes) (a : NamedArgs) (s : S) → Rowed (pool.query q a s).0) where
  rows_read-Found :
      (n : ℕ) (o : Result Rows × S) → Rowed o.0 → Found n (rows_read upper pool cfg n o).0
  unfolding rows_read
  rows_read-Found n (ok rows, s) h = read_rows-Found n _ rows.rows h
  rows_read-Found n (err e, s) h = (omega arith, tt)
  rows_read-Found n (panic, s) h = absurd h

  get_peers-Found :
      (ih : InfoHash) (seeders : Bool) (n : ℕ) (v6 : Bool) (s : S)
      → Found n (get_peers upper pool cfg ih seeders n v6 s).0
  unfolding get_peers
  get_peers-Found ih seeders n v6 s = rows_read-Found n _ (quiet _ _ s)

  joined :
      (n : ℕ) (ps more : List Peer) (e e' : Option Error)
      → Found n (ok (ps, e))
      → Found (n - length ps) (ok (more, e'))
      → Found n (ok (ps ++ more, e'))
  joined n ps more e e' h k =
      (omega (arith, h.0, k.0, length-append ps more), All-append IsPeer ps more h.1 k.1)

  with_leechers-Found :
      (ih : InfoHash) (n : ℕ) (v6 : Bool) (found : List Peer × Option Error) (s : S)
      → Found n (ok found)
      → Found n (with_leechers upper pool cfg ih n v6 found s).0
  unfolding with_leechers
  with_leechers-Found ih n v6 (ps, some e) s h = h
  with_leechers-Found ih n v6 (ps, none) s h =
      found_then (Found n) (n - length ps) _ _ (get_peers-Found ih false (n - length ps) v6 s)
        λ x s' k. joined n ps x.0 none x.1 h k

  candidates-Found :
      (ih : InfoHash) (for_seeder : Bool) (n : ℕ) (v6 : Bool) (s : S)
      → Found n (candidates upper pool cfg ih for_seeder n v6 s).0
  unfolding candidates
  candidates-Found ih true n v6 s = get_peers-Found ih false n v6 s
  candidates-Found ih false n v6 s =
      found_then (Found n) n _ _ (get_peers-Found ih true n v6 s)
        λ x s' h. with_leechers-Found ih n v6 x s' h

  -- Over every database whose queries do not panic, nor its scans into places with indexes in range,
  -- AnnouncePeers does not panic either, and answers with an error or with one peer at least and as many as
  -- are wanted at most, each with an identifier of twenty bytes and a port of 16 bits.
  pub announce_peers-Answered :
      (ih : InfoHash) (for_seeder : Bool) (n : ℕ) (v6 : Bool) (s : S)
      → Answered n (announce_peers upper pool cfg ih for_seeder n v6 s).0
  unfolding announce_peers
  announce_peers-Answered ih for_seeder n v6 s =
      found_then (Answered n) n _ _ (candidates-Found ih for_seeder n v6 s)
        λ x s' h. settled-Answered n x h
