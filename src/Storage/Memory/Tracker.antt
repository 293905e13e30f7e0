-- ===== src/Storage/Memory/Tracker.antt =====
-- storage/memory/storage.go: any sequence of calls on the peer store against its specification, a table
-- of the times of the last announces.
use mathlib.Core.Path.{fun_ext}
use mochi.Base.{
  ℕ, ◌≤◌, ◌≡◌, ◌∙◌, refl, ap, sym, zero, suc, length-map, if◌then◌else◌, Bool, true, false, none,
  some, List, [], ◌∷◌, map, length, All, get_elem?,
}
use mochi.Base.Int.{ℤ}
use mochi.Netip.{is6}
use mochi.Result.{Result, ok, err, panic}
use mochi.Bittorrent.Peer.{Peer, addr}
use mochi.Bittorrent.Hash.{InfoHash}
use mochi.Storage.Memory.{
  Shard, PeerStore, shard_index, put_seeder, delete_seeder, put_leecher, delete_leecher,
  graduate_leecher,
}
use mochi.Storage.Memory.Gc.{gc, gc_shard}
use mochi.Storage.Memory.Purge.{expire}
use mochi.Storage.Memory.Collect.{gc_shard-IsCounted, view-gc_shard}
use mochi.Storage.Memory.Counters.{
  IsCounted, shard_put_seeder-IsCounted, shard_delete_seeder-IsCounted, shard_put_leecher-IsCounted,
  shard_delete_leecher-IsCounted, shard_graduate_leecher-IsCounted,
}
use mochi.Storage.Memory.View.{
  Role, seeder, leecher, View, assign, view-put_seeder, view-delete_seeder, view-put_leecher,
  view-delete_leecher, view-graduate_leecher,
}
use mochi.Storage.Memory.Refines.{
  IsWell, store_view, view_by, found_at, shard_of, assign-IsLocal, comp-IsLocal, Runs,
  on_shard-Runs,
}

pub data Call : Type 0 where
  seed leech graduate : ℤ → InfoHash → Peer → Call
  unseed unleech : InfoHash → Peer → Call
  collect : ℤ → Call

-- The call as the store runs it.
unfoldable pub step : Call → PeerStore → PeerStore
step (seed now ih p) ps = (put_seeder now ih p ps).1
step (unseed ih p) ps = (delete_seeder ih p ps).1
step (leech now ih p) ps = (put_leecher now ih p ps).1
step (unleech ih p) ps = (delete_leecher ih p ps).1
step (graduate now ih p) ps = (graduate_leecher now ih p ps).1
step (collect cutoff) ps = gc cutoff ps

unfoldable pub run : List Call → PeerStore → PeerStore
run [] ps = ps
run (c ∷ cs) ps = run cs (step c ps)

-- The call as a change of the table.
unfoldable pub spec : Call → View → View
spec (seed now ih p) v = assign seeder ih p (some now) v
spec (unseed ih p) v = assign seeder ih p none v
spec (leech now ih p) v = assign leecher ih p (some now) v
spec (unleech ih p) v = assign leecher ih p none v
spec (graduate now ih p) v = assign seeder ih p (some now) (assign leecher ih p none v)
spec (collect cutoff) v = λ r jh q. expire cutoff (v r jh q)

unfoldable pub spec_run : List Call → View → View
spec_run [] v = v
spec_run (c ∷ cs) v = spec_run cs (spec c v)

-- Every hash has the four bytes that select a shard.
abbrev pub HasHash : Call → Type 0
HasHash (seed now ih p) = 4 ≤ length ih
HasHash (unseed ih p) = 4 ≤ length ih
HasHash (leech now ih p) = 4 ≤ length ih
HasHash (unleech ih p) = 4 ≤ length ih
HasHash (graduate now ih p) = 4 ≤ length ih
HasHash (collect cutoff) = Unit

gc_shards_view :
    (cutoff : ℤ) (shards : List Shard) (i : ℕ) (r : Role) (ih : InfoHash) (p : Peer)
    → All IsCounted shards
    → shard_of (get_elem? (map (gc_shard cutoff) shards) i) r ih p
      ≡ expire cutoff (shard_of (get_elem? shards i) r ih p)
gc_shards_view cutoff [] i r ih p h = refl
gc_shards_view cutoff (sh ∷ shards) zero r ih p h = view-gc_shard cutoff sh h.0 r ih p
gc_shards_view cutoff (sh ∷ shards) (suc i) r ih p h = gc_shards_view cutoff shards i r ih p h.1

gc_found :
    (cutoff : ℤ) (shards : List Shard) (i : Result ℕ) (r : Role) (ih : InfoHash) (p : Peer)
    → All IsCounted shards
    → found_at (map (gc_shard cutoff) shards) i r ih p ≡ expire cutoff (found_at shards i r ih p)
gc_found cutoff shards (ok i) r ih p h = gc_shards_view cutoff shards i r ih p h
gc_found cutoff shards (err e) r ih p h = refl
gc_found cutoff shards panic r ih p h = refl

gc_shards-IsCounted :
    (cutoff : ℤ) (shards : List Shard)
    → All IsCounted shards
    → All IsCounted (map (gc_shard cutoff) shards)
gc_shards-IsCounted cutoff [] h = tt
gc_shards-IsCounted cutoff (sh ∷ shards) h =
    (gc_shard-IsCounted cutoff sh h.0, gc_shards-IsCounted cutoff shards h.1)

gc_index :
    (cutoff : ℤ) (ps : PeerStore) (ih : InfoHash) (v6 : Bool)
    → shard_index (record ps { shards = map (gc_shard cutoff) ps.shards }) ih v6
      ≡ shard_index ps ih v6
unfolding shard_index
gc_index cutoff ps ih v6 = rw (length-map ps.shards (gc_shard cutoff))

-- the branch of an open store
open_Runs :
    (u : View → View) (ps : PeerStore) (b : Bool) (x y : PeerStore)
    → b ≡ false
    → Runs u ps y
    → Runs u ps (if b then x else y)
open_Runs u ps true x y e h = absurd (cc)
open_Runs u ps false x y e h = h

open_call :
    (u : View → View) (ps : PeerStore) (b : Bool) (x y : Result (Unit {0}) × PeerStore)
    → b ≡ false
    → Runs u ps y.1
    → Runs u ps (if b then x else y).1
open_call u ps true x y e h = absurd (cc)
open_call u ps false x y e h = h

gc-Runs :
    (cutoff : ℤ) (ps : PeerStore)
    → IsWell ps
    → ps.closed ≡ false
    → Runs (spec (collect cutoff)) ps (gc cutoff ps)
unfolding gc spec
gc-Runs cutoff ps w o = open_Runs _ ps ps.closed ps _ o (record {
  well = record {
    sized = record {
      half = w.sized.half;
      size = length-map ps.shards (gc_shard cutoff) ∙ w.sized.size;
      positive = w.sized.positive;
      bounded = w.sized.bounded;
    };
    counted = gc_shards-IsCounted cutoff ps.shards w.counted;
  };
  still_open = refl;
  view = fun_ext λ r. fun_ext λ ih. fun_ext λ p.
      view_by (record ps { shards = map (gc_shard cutoff) ps.shards }) r ih p _
        (gc_index cutoff ps ih (is6 (addr p)))
      ∙ (gc_found cutoff ps.shards (shard_index ps ih (is6 (addr p))) r ih p w.counted
          ∙ ap (expire cutoff) (sym (view_by ps r ih p _ refl)));
})

-- One call on an open store does what the specification says.
pub step-Runs :
    (c : Call) (ps : PeerStore)
    → HasHash c
    → IsWell ps
    → ps.closed ≡ false
    → Runs (spec c) ps (step c ps)
unfolding step spec put_seeder delete_seeder put_leecher delete_leecher graduate_leecher
step-Runs (seed now ih p) ps l w o = open_call _ ps ps.closed _ _ o (
    on_shard-Runs ps ih p _ _ w l (assign-IsLocal seeder ih p (some now))
      (λ sh c. shard_put_seeder-IsCounted ih p sh c now)
      (λ sh c r jh q. view-put_seeder ih p sh jh q r now))
step-Runs (leech now ih p) ps l w o = open_call _ ps ps.closed _ _ o (
    on_shard-Runs ps ih p _ _ w l (assign-IsLocal leecher ih p (some now))
      (λ sh c. shard_put_leecher-IsCounted ih p sh c now)
      (λ sh c r jh q. view-put_leecher ih p sh jh q r now))
step-Runs (graduate now ih p) ps l w o = open_call _ ps ps.closed _ _ o (
    on_shard-Runs ps ih p _ _ w l
      (comp-IsLocal _ _ ih p (assign-IsLocal seeder ih p (some now))
        (assign-IsLocal leecher ih p none))
      (λ sh c. shard_graduate_leecher-IsCounted ih p sh c now)
      (λ sh c r jh q. view-graduate_leecher ih p sh jh q c r now))
step-Runs (unseed ih p) ps l w o = open_call _ ps ps.closed _ _ o (
    on_shard-Runs ps ih p _ _ w l (assign-IsLocal seeder ih p none)
      (λ sh c. shard_delete_seeder-IsCounted ih p sh c)
      (λ sh c r jh q. view-delete_seeder ih p sh jh q c r))
step-Runs (unleech ih p) ps l w o = open_call _ ps ps.closed _ _ o (
    on_shard-Runs ps ih p _ _ w l (assign-IsLocal leecher ih p none)
      (λ sh c. shard_delete_leecher-IsCounted ih p sh c)
      (λ sh c r jh q. view-delete_leecher ih p sh jh q c r))
step-Runs (collect cutoff) ps l w o = gc-Runs cutoff ps w o

-- Whatever calls for hashes of four bytes or more are made on an open, well-formed store, in whatever order,
-- the garbage collector among them, the store stays open and well formed (its counters agree with its
-- swarms), and it holds exactly the peers and times of the table that the specification computes.
pub run-refines :
    (cs : List Call) (ps : PeerStore)
    → All HasHash cs
    → IsWell ps
    → ps.closed ≡ false
    → IsWell (run cs ps)
      × ((run cs ps).closed ≡ false)
      × (store_view (run cs ps) ≡ spec_run cs (store_view ps))
unfolding run spec_run
run-refines [] ps l w o = (w, o, refl)
run-refines (c ∷ cs) ps l w o =
    let s = step-Runs c ps l.0 w o in
    let (well, still, same) = run-refines cs (step c ps) l.1 s.well (s.still_open ∙ o) in
    (well, still, same ∙ ap (spec_run cs) s.view)
