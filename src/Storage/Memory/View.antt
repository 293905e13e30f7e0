-- ===== src/Storage/Memory/View.antt =====
-- storage/memory/storage.go: what a shard knows, as a function of the kind of peer, the hash and the
-- peer. Each operation on a shard changes it in one place.
use mochi.Base.{
  ℕ, ◌≡◌, ◌∙◌, refl, sym, ap, false, Option, none, some, arith, ite, inl, inr, Option-cases,
  Bool-cases,
}
use mochi.Base.Bytes.{Bytes-discrete}
use mochi.Base.Int.{ℤ}
use mochi.Base.Map
use mochi.Base.Map.{Map, get-insert, get-delete, Values-get}
use mochi.Bittorrent.Peer.{Peer, Peer-discrete}
use mochi.Bittorrent.Hash.{InfoHash}
use mochi.Storage.Memory.{
  Peers, Swarm, Shard, get_or_create, put_swarm, shard_put_seeder, shard_delete_seeder,
  shard_put_leecher, shard_delete_leecher, shard_graduate_leecher,
}
use mochi.Storage.Memory.Counters.{IsCounted, AreMaps, get_or_create-AreMaps, get_or_create-found}

pub data Role : Type 0 where
  seeder leecher : Role

abbrev pub of_role : Role → Swarm → Peers
of_role seeder sw = sw.seeders
of_role leecher sw = sw.leechers

-- The time of the last announce of each peer in each role.
abbrev pub View : Type 0
View = Role → InfoHash → Peer → Option ℤ

abbrev time_in : Role → Option Swarm → Peer → Option ℤ
time_in r none p = none
time_in r (some sw) p = Map.get Peer-discrete p (of_role r sw)

unfoldable pub shard_view : Shard → View
shard_view sh r ih p = time_in r (Map.get Bytes-discrete ih sh.swarms) p

-- A view changed at one role, hash and peer.
unfoldable pub assign : Role → InfoHash → Peer → Option ℤ → View → View
assign seeder ih p o v seeder jh q =
    ite (Bytes-discrete jh ih) (ite (Peer-discrete q p) o (v seeder jh q)) (v seeder jh q)
assign leecher ih p o v leecher jh q =
    ite (Bytes-discrete jh ih) (ite (Peer-discrete q p) o (v leecher jh q)) (v leecher jh q)
assign r ih p o v r' jh q = v r' jh q

view_get_or_create :
    (r : Role) (ih : InfoHash) (sh : Shard) (q : Peer)
    → Map.get Peer-discrete q (of_role r (get_or_create ih sh)) ≡ shard_view sh r ih q
unfolding get_or_create shard_view Map.get
view_get_or_create seeder ih sh q = ground arith
view_get_or_create leecher ih sh q = ground arith

pub view-put_swarm :
    (r : Role) (ih jh : InfoHash) (sw : Swarm) (sh : Shard) (ns nl : ℕ) (q : Peer)
    → shard_view (put_swarm ih sw (record sh { num_seeders = ns; num_leechers = nl })) r jh q
      ≡ ite (Bytes-discrete jh ih) (Map.get Peer-discrete q (of_role r sw)) (shard_view sh r jh q)
unfolding shard_view
view-put_swarm r ih jh sw sh ns nl q = ground (arith, get-insert Bytes-discrete jh ih sw sh.swarms)

module _ (ih : InfoHash) (p : Peer) (sh : Shard) (jh : InfoHash) (q : Peer) where
  -- a swarm written back that differs from the old one at most at the peer `p` in one role
  abbrev IsWritten : Role → Swarm → Option ℤ → Type 0
  IsWritten r sw o =
      Map.get Peer-discrete q (of_role r sw)
      ≡ ite (Peer-discrete q p) o (Map.get Peer-discrete q (of_role r (get_or_create ih sh)))

  view-IsWritten :
      (r : Role) (sw : Swarm) (ns nl : ℕ) (o : Option ℤ)
      → IsWritten r sw o
      → shard_view (put_swarm ih sw (record sh { num_seeders = ns; num_leechers = nl })) r jh q
        ≡ assign r ih p o (shard_view sh) r jh q
  unfolding assign
  view-IsWritten seeder sw ns nl o h =
      ground (arith, view-put_swarm seeder ih jh sw sh ns nl q, view_get_or_create seeder ih sh q)
  view-IsWritten leecher sw ns nl o h =
      ground (arith, view-put_swarm leecher ih jh sw sh ns nl q, view_get_or_create leecher ih sh q)

  view_keep :
      (r : Role) (sw : Swarm) (ns nl : ℕ)
      → of_role r sw ≡ of_role r (get_or_create ih sh)
      → shard_view (put_swarm ih sw (record sh { num_seeders = ns; num_leechers = nl })) r jh q
        ≡ shard_view sh r jh q
  view_keep r sw ns nl h =
      ground (arith, view-put_swarm r ih jh sw sh ns nl q, view_get_or_create r ih sh q)

  pub view-put_seeder :
      (r : Role) (now : ℤ)
      → shard_view (shard_put_seeder now ih p sh).1 r jh q
        ≡ assign seeder ih p (some now) (shard_view sh) r jh q
  unfolding shard_put_seeder
  view-put_seeder seeder now =
      view-IsWritten seeder _ _ _ (some now)
        (get-insert Peer-discrete q p now (get_or_create ih sh).seeders)
  view-put_seeder leecher now = unfold assign in view_keep leecher _ _ _ refl

  pub view-put_leecher :
      (r : Role) (now : ℤ)
      → shard_view (shard_put_leecher now ih p sh).1 r jh q
        ≡ assign leecher ih p (some now) (shard_view sh) r jh q
  unfolding shard_put_leecher
  view-put_leecher seeder now = unfold assign in view_keep seeder _ _ _ refl
  view-put_leecher leecher now =
      view-IsWritten leecher _ _ _ (some now)
        (get-insert Peer-discrete q p now (get_or_create ih sh).leechers)

  module _ (h : IsCounted sh) where
    pub view-graduate_leecher :
        (r : Role) (now : ℤ)
        → shard_view (shard_graduate_leecher now ih p sh).1 r jh q
          ≡ assign seeder ih p (some now) (assign leecher ih p none (shard_view sh)) r jh q
    unfolding shard_graduate_leecher
    view-graduate_leecher seeder now =
        view-IsWritten seeder _ _ _ (some now)
          (get-insert Peer-discrete q p now (get_or_create ih sh).seeders)
        ∙ (unfold assign in refl)
    view-graduate_leecher leecher now =
        view-IsWritten leecher _ _ _ none (
          get-delete Peer-discrete q p (get_or_create ih sh).leechers
            (get_or_create-AreMaps ih sh h).1)
        ∙ (unfold assign in refl)

    assign_absent :
        (role r : Role)
        → shard_view sh role ih p ≡ none
        → shard_view sh r jh q ≡ assign role ih p none (shard_view sh) r jh q
    unfolding assign
    assign_absent seeder seeder e = ground arith
    assign_absent leecher leecher e = ground arith
    assign_absent seeder leecher e = refl
    assign_absent leecher seeder e = refl

    view_lost :
        (r : Role) (sw own : Swarm) (ns nl : ℕ)
        → Map.get Bytes-discrete ih sh.swarms ≡ some own
        → of_role r sw ≡ Map.delete Peer-discrete p (of_role r own)
        → Map.IsMap Peer-discrete (of_role r own)
        → shard_view (put_swarm ih sw (record sh { num_seeders = ns; num_leechers = nl })) r jh q
          ≡ assign r ih p none (shard_view sh) r jh q
    view_lost r sw own ns nl here e m = view-IsWritten r sw ns nl none (
        ground (
          arith,
          get-delete Peer-discrete q p (of_role r own) m,
          get_or_create-found ih sh own here,
        ))

    view_kept :
        (r : Role) (sw own : Swarm) (ns nl : ℕ)
        → Map.get Bytes-discrete ih sh.swarms ≡ some own
        → of_role r sw ≡ of_role r own
        → shard_view (put_swarm ih sw (record sh { num_seeders = ns; num_leechers = nl })) r jh q
          ≡ shard_view sh r jh q
    view_kept r sw own ns nl here e =
        view_keep r sw ns nl (e ∙ ap (of_role r) (sym (get_or_create-found ih sh own here)))

    shard_view_absent :
        (r : Role) → Map.get Bytes-discrete ih sh.swarms ≡ none → shard_view sh r ih p ≡ none
    unfolding shard_view
    shard_view_absent r e = rw e

    shard_view_missing :
        (r : Role) (sw : Swarm)
        → Map.get Bytes-discrete ih sh.swarms ≡ some sw
        → Map.contains Peer-discrete p (of_role r sw) ≡ false
        → shard_view sh r ih p ≡ none
    unfolding shard_view
    shard_view_missing r sw e c = ground arith

    seeder_gone :
        (r : Role) (sw : Swarm) (ns nl : ℕ)
        → Map.get Bytes-discrete ih sh.swarms ≡ some sw
        → shard_view
            (put_swarm ih
              (record sw { seeders = Map.delete Peer-discrete p sw.seeders })
              (record sh { num_seeders = ns; num_leechers = nl }))
            r
            jh
            q
          ≡ assign seeder ih p none (shard_view sh) r jh q
    seeder_gone seeder sw ns nl here =
        view_lost seeder _ sw _ _ here refl
          (Values-get Bytes-discrete AreMaps ih sw sh.swarms h.peers here).0
    seeder_gone leecher sw ns nl here = unfold assign in view_kept leecher _ sw _ _ here refl

    pub view-delete_seeder :
        (r : Role)
        → shard_view (shard_delete_seeder ih p sh).1 r jh q
          ≡ assign seeder ih p none (shard_view sh) r jh q
    unfolding shard_delete_seeder
    view-delete_seeder r = elim (Option-cases (Map.get Bytes-discrete ih sh.swarms)) [
      | inl absent ↦
          rw (absent, shard_delete_seeder)
            (assign_absent seeder r (shard_view_absent seeder absent))
      | inr (sw, here) ↦
          rw (here, shard_delete_seeder)
            (elim (Bool-cases (Map.contains Peer-discrete p sw.seeders)) [
              | inl there ↦ rw there (seeder_gone r sw _ _ here)
              | inr missing ↦
                  rw missing (assign_absent seeder r (shard_view_missing seeder sw here missing))
            ])
    ]

    leecher_gone :
        (r : Role) (sw : Swarm) (ns nl : ℕ)
        → Map.get Bytes-discrete ih sh.swarms ≡ some sw
        → shard_view
            (put_swarm ih
              (record sw { leechers = Map.delete Peer-discrete p sw.leechers })
              (record sh { num_seeders = ns; num_leechers = nl }))
            r
            jh
            q
          ≡ assign leecher ih p none (shard_view sh) r jh q
    leecher_gone seeder sw ns nl here = unfold assign in view_kept seeder _ sw _ _ here refl
    leecher_gone leecher sw ns nl here =
        view_lost leecher _ sw _ _ here refl
          (Values-get Bytes-discrete AreMaps ih sw sh.swarms h.peers here).1

    pub view-delete_leecher :
        (r : Role)
        → shard_view (shard_delete_leecher ih p sh).1 r jh q
          ≡ assign leecher ih p none (shard_view sh) r jh q
    unfolding shard_delete_leecher
    view-delete_leecher r = elim (Option-cases (Map.get Bytes-discrete ih sh.swarms)) [
      | inl absent ↦
          rw (absent, shard_delete_leecher)
            (assign_absent leecher r (shard_view_absent leecher absent))
      | inr (sw, here) ↦
          rw (here, shard_delete_leecher)
            (elim (Bool-cases (Map.contains Peer-discrete p sw.leechers)) [
              | inl there ↦ rw there (leecher_gone r sw _ _ here)
              | inr missing ↦
                  rw missing (assign_absent leecher r (shard_view_missing leecher sw here missing))
            ])
    ]
