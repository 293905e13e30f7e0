-- ===== src/Middleware/TorrentApproval/Chosen.antt =====
-- middleware/torrentapproval/torrentapproval.go: the storage that `build` chooses, and the hook in a chain.
use mochi.Base.{refl, Bool, true, false, Option, if◌then◌else◌}
use mochi.Base.Bytes.{Bytes}
use mochi.Storage.Data.{DataStorage, IsTable}
use mochi.Storage.MemoryData.{DataStore, memory_data}
use mochi.Storage.MemoryData.Tables.{memory_data-IsTable, IsStore, data_view}
use mochi.Middleware.Safety.{IsSafeHook, if-IsSafe}
use mochi.Middleware.TorrentApproval.{
  Listed, approve_torrent, torrent_approval_hook, chosen, on_left, on_right,
}
use mochi.Middleware.TorrentApproval.Approves.{approved_reads}

-- whether `build` makes a store of its own
abbrev pub is_temporary : {S : Type 0} → Bool → DataStorage S → Bool
is_temporary preserve d = if preserve then false else d.preservable

module _ {S T : Type 0} (Good : S → Type 0) (GoodT : T → Type 0) where
  abbrev pub Both : S × T → Type 0
  Both (s, t) = Good s × GoodT t

  on_left-IsTable :
      (view : S → Bytes → Bytes → Option Bytes) (d : DataStorage S)
      → IsTable Good view d
      → IsTable Both (λ st. view st.0) (on_left d)
  on_left-IsTable view d table = record {
    put_stores = λ c es (s, t) g.
        let (s', e, g', v) = table.put_stores c es s g.0 in ((s', t), rw e refl, (g', g.1), v);
    delete_removes = λ c ks (s, t) g.
        let (s', e, g', v) = table.delete_removes c ks s g.0 in ((s', t), rw e refl, (g', g.1), v);
    contains_reads = λ c k (s, t) g. rw (table.contains_reads c k s g.0) refl;
    load_reads = λ c k (s, t) g. rw (table.load_reads c k s g.0) refl;
  }

  on_right-IsTable :
      (view : T → Bytes → Bytes → Option Bytes) (d : DataStorage T)
      → IsTable GoodT view d
      → IsTable Both (λ st. view st.1) (on_right d)
  on_right-IsTable view d table = record {
    put_stores = λ c es (s, t) g.
        let (t', e, g', v) = table.put_stores c es t g.1 in ((s, t'), rw e refl, (g.0, g'), v);
    delete_removes = λ c ks (s, t) g.
        let (t', e, g', v) = table.delete_removes c ks t g.1 in ((s, t'), rw e refl, (g.0, g'), v);
    contains_reads = λ c k (s, t) g. rw (table.contains_reads c k t g.1) refl;
    load_reads = λ c k (s, t) g. rw (table.load_reads c k t g.1) refl;
  }

module _ {S : Type 0} (Good : S → Type 0) (view : S → Bytes → Bytes → Option Bytes)
    (d : DataStorage S) (table : IsTable Good view d) where
  -- the tables of the chosen storage
  abbrev pub view_of : Bool → S × DataStore → Bytes → Bytes → Option Bytes
  view_of true st = data_view st.1
  view_of false st = view st.0

  -- The storage that the torrent approval hook works on is a table of tables if the registered one is: the
  -- tables of a memory store of its own where the registered storage could outlive the process and need
  -- not, else those of the registered storage.
  pub chosen-IsTable :
      (preserve : Bool)
      → IsTable (Both Good IsStore) (view_of (is_temporary preserve d)) (chosen preserve d)
  unfolding chosen
  chosen-IsTable preserve = go (is_temporary preserve d)
    where
      go :
          (b : Bool)
          → IsTable
              (Both Good IsStore)
              (view_of b)
              (if◌then◌else◌ {A = DataStorage (S × DataStore)} b (on_right memory_data) (on_left d))
      go true = on_right-IsTable Good IsStore data_view memory_data memory_data-IsTable
      go false = on_left-IsTable Good IsStore view d table

  -- the hook does not write, and does not panic
  pub torrent_approval-IsSafeHook : (l : Listed) → IsSafeHook Good (torrent_approval_hook d l)
  unfolding approve_torrent
  torrent_approval-IsSafeHook l = record {
    announce_safe = λ ctx req resp s h g.
        rw (approved_reads Good view d table l req.info_hash s g)
          (if-IsSafe Good _ _ _ (g, λ p. cc) (g, λ p. cc));
    scrape_safe = λ ctx req resp s h g. (g, λ p. cc);
  }
