-- ===== src/Storage/Memory/Purge.antt =====
-- storage/memory/storage.go: what the loops of `gc` over one map of peers leave.
use mochi.Base.{
  ℕ, ◌+◌, ◌%◌, ◌^◌, ◌≡◌, refl, Bool, true, false, ◌||◌, List, [], ◌∷◌, ◌++◌, Option, none, some,
  arith, ite, if◌then◌else◌, length, Bool-cases, inl, inr,
}
use mochi.Base.Int.{ℤ, leb_ℤ}
use mochi.Base.Map
use mochi.Base.Map.{get-delete, delete-IsMap, length-delete}
use mochi.Bittorrent.Peer.{Peer, Peer-discrete}
use mochi.Storage.Memory.{Peers, decrement}
use mochi.Storage.Memory.Gc.{to_del, delete_all, purge}

-- An entry that has not announced since the cutoff is gone.
abbrev pub expire : ℤ → Option ℤ → Option ℤ
expire cutoff none = none
expire cutoff (some mtime) = if leb_ℤ mtime cutoff then none else some mtime

abbrev stale : ℤ → Option ℤ → Bool
stale cutoff none = false
stale cutoff (some mtime) = leb_ℤ mtime cutoff

listed : Peer → List Peer → Bool
listed q [] = false
listed q (p ∷ ps) = ite (Peer-discrete q p) true (listed q ps)

listed-append :
    (q p : Peer) (ps : List Peer)
    → listed q (ps ++ p ∷ []) ≡ listed q ps || ite (Peer-discrete q p) true false
unfolding listed
listed-append q p [] = ground arith
listed-append q p (o ∷ ps) = ground (arith, listed-append q p ps)

listed-to_del :
    (cutoff : ℤ) (q : Peer) (dels : List Peer) (m : Peers)
    → Map.IsMap Peer-discrete m
    → listed q (to_del cutoff dels m) ≡ listed q dels || stale cutoff (Map.get Peer-discrete q m)
unfolding to_del Map.get
listed-to_del cutoff q dels [] h = ground arith
listed-to_del cutoff q dels ((p, mtime) ∷ m) h = ground (
  arith,
  listed-to_del cutoff q (if leb_ℤ mtime cutoff then dels ++ p ∷ [] else dels) m h.1,
  listed-append q p dels,
)

-- What the deletions keep: a map, the balance of the counter, and the entries that are not listed.
record Deleted (dels : List Peer) (m : Peers) (n : ℕ) (s : Peers × ℕ) : Type 0 where
  distinct : Map.IsMap Peer-discrete s.0
  balance : (s.1 + length m) % 2 ^ 64 ≡ (n + length s.0) % 2 ^ 64
  word : n % 2 ^ 64 ≡ n → s.1 % 2 ^ 64 ≡ s.1
  entries :
      (q : Peer)
      → Map.get Peer-discrete q s.0 ≡ (if listed q dels then none else Map.get Peer-discrete q m)

delete_all-Deleted :
    (dels : List Peer) (m : Peers) (n : ℕ)
    → Map.IsMap Peer-discrete m
    → Deleted dels m n (delete_all dels (m, n))
unfolding delete_all listed
delete_all-Deleted [] m n h = record {
  distinct = h;
  balance = refl;
  word = λ w. w;
  entries = λ q. refl;
}
delete_all-Deleted (p ∷ dels) m n h = elim (Bool-cases (Map.contains Peer-discrete p m)) [
  | inl there ↦ rw there (
      let d =
        delete_all-Deleted dels (Map.delete Peer-discrete p m) (decrement n)
          (delete-IsMap Peer-discrete p m h) in
      record {
        distinct = d.distinct;
        balance = ground (arith, d.balance, length-delete Peer-discrete p m);
        word = λ w. d.word (omega arith);
        entries = λ q. ground (arith, d.entries q, get-delete Peer-discrete q p m h);
      })
  | inr missing ↦ rw missing (
      let d = delete_all-Deleted dels m n h in
      record {
        distinct = d.distinct;
        balance = d.balance;
        word = d.word;
        entries = λ q. ground (arith, d.entries q);
      })
]

pub record Purged (cutoff : ℤ) (m : Peers) (n : ℕ) (s : Peers × ℕ) : Type 0 where
  pub distinct : Map.IsMap Peer-discrete s.0
  pub balance : (s.1 + length m) % 2 ^ 64 ≡ (n + length s.0) % 2 ^ 64
  pub word : n % 2 ^ 64 ≡ n → s.1 % 2 ^ 64 ≡ s.1
  pub entries : (q : Peer) → Map.get Peer-discrete q s.0 ≡ expire cutoff (Map.get Peer-discrete q m)

pub purge-Purged :
    (cutoff : ℤ) (m : Peers) (n : ℕ)
    → Map.IsMap Peer-discrete m
    → Purged cutoff m n (purge cutoff (m, n))
unfolding purge listed
purge-Purged cutoff m n h =
    let d = delete_all-Deleted (to_del cutoff [] m) m n h in
    record {
      distinct = d.distinct;
      balance = d.balance;
      word = d.word;
      entries = λ q. ground (arith, d.entries q, listed-to_del cutoff q [] m h);
    }
