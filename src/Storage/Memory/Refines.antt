-- ===== src/Storage/Memory/Refines.antt =====
-- storage/memory/storage.go: the whole store as a view, and a call as a change of that view in one
-- place.
use mathlib.Core.Path.{fun_ext}
use mochi.Base.{
  ℕ, ◌≤◌, ◌≡◌, ◌≢◌, ◌⊎◌, inl, inr, ◌∙◌, refl, sym, ap, Bool, Option, none, some, arith, List,
  length, get_elem?, set, All, All-set, All-get_elem?, length-set, get_elem?-set_self,
  get_elem?-set_ne, ℕ_discrete,
}
use mochi.Base.Bytes.{Bytes-discrete}
use mochi.Base.Int.{ℤ}
use mochi.Netip.{is6}
use mochi.Result.{Result, ok, err, panic}
use mochi.Bittorrent.Peer.{Peer, addr}
use mochi.Bittorrent.Hash.{InfoHash}
use mochi.Storage.Memory.{Shard, PeerStore, shard_index, select_shard, on_shard}
use mochi.Storage.Memory.Counters.{IsCounted}
use mochi.Storage.Memory.View.{Role, seeder, leecher, View, shard_view, assign}
use mochi.Storage.Memory.Select.{IsSized, select_shard_total}

pub record IsWell (ps : PeerStore) : Type 0 where
  pub sized : IsSized ps
  pub counted : All IsCounted ps.shards

-- The view of the shard that the hash and the family of the peer's address select.
unfoldable pub store_view : PeerStore → View
store_view ps r ih p = elim (select_shard ps ih (is6 (addr p))) [
  | ok (i, sh) ↦ shard_view sh r ih p
  | err e ↦ none
  | panic ↦ none
]

-- A change of a view that reads what it changes, and nothing but the entries of one hash and peer.
pub record IsLocal (u : View → View) (ih : InfoHash) (p : Peer) : Type 0 where
  pub reads :
      (v w : View) (r : Role) (jh : InfoHash) (q : Peer)
      → v r jh q ≡ w r jh q
      → u v r jh q ≡ u w r jh q
  pub outside :
      (v : View) (r : Role) (jh : InfoHash) (q : Peer) → (jh ≢ ih) ⊎ (q ≢ p) → u v r jh q ≡ v r jh q

assign_reads :
    (role : Role) (ih : InfoHash) (p : Peer) (o : Option ℤ) (v w : View) (r : Role) (jh : InfoHash)
    (q : Peer)
    → v r jh q ≡ w r jh q
    → assign role ih p o v r jh q ≡ assign role ih p o w r jh q
unfolding assign
assign_reads seeder ih p o v w seeder jh q e = rw e
assign_reads leecher ih p o v w leecher jh q e = rw e
assign_reads seeder ih p o v w leecher jh q e = e
assign_reads leecher ih p o v w seeder jh q e = e

assign_outside :
    (role : Role) (ih : InfoHash) (p : Peer) (o : Option ℤ) (v : View) (r : Role) (jh : InfoHash)
    (q : Peer)
    → (jh ≢ ih) ⊎ (q ≢ p)
    → assign role ih p o v r jh q ≡ v r jh q
unfolding assign
assign_outside seeder ih p o v seeder jh q e = ground arith
assign_outside leecher ih p o v leecher jh q e = ground arith
assign_outside seeder ih p o v leecher jh q e = refl
assign_outside leecher ih p o v seeder jh q e = refl

pub assign-IsLocal :
    (role : Role) (ih : InfoHash) (p : Peer) (o : Option ℤ) → IsLocal (assign role ih p o) ih p
assign-IsLocal role ih p o = record {
  reads = assign_reads role ih p o;
  outside = assign_outside role ih p o;
}

pub comp-IsLocal :
    (t u : View → View) (ih : InfoHash) (p : Peer)
    → IsLocal t ih p
    → IsLocal u ih p
    → IsLocal (λ v. t (u v)) ih p
comp-IsLocal t u ih p lt lu = record {
  reads = λ v w r jh q e. lt.reads (u v) (u w) r jh q (lu.reads v w r jh q e);
  outside = λ v r jh q e. lt.outside (u v) r jh q e ∙ lu.outside v r jh q e;
}

Result-dec : (r : Result ℕ) (i : ℕ) → (r ≡ ok i) ⊎ (r ≢ ok i)
Result-dec (ok j) i = elim (ℕ_discrete j i) [ yes e ↦ inl (ap ok e) | no n ↦ inr (λ k. n (cc)) ]
Result-dec (err e) i = inr (λ k. cc)
Result-dec panic i = inr (λ k. cc)

abbrev pub shard_of : Option Shard → View
shard_of none r ih p = none
shard_of (some sh) r ih p = shard_view sh r ih p

abbrev pub found_at : List Shard → Result ℕ → View
found_at shards (ok i) = shard_of (get_elem? shards i)
found_at shards (err e) = shard_of none
found_at shards panic = shard_of none

shard_of-some :
    (o : Option Shard) (r : Role) (ih : InfoHash) (p : Peer) {sh : Shard}
    → o ≡ some sh
    → shard_of o r ih p ≡ shard_view sh r ih p
shard_of-some o r ih p e = rw e

pub view_by :
    (ps : PeerStore) (r : Role) (ih : InfoHash) (p : Peer) (i : Result ℕ)
    → shard_index ps ih (is6 (addr p)) ≡ i
    → store_view ps r ih p ≡ found_at ps.shards i r ih p
unfolding store_view select_shard
view_by ps r ih p i e = ground arith

found_elsewhere :
    (shards : List Shard) (i : ℕ) (sh : Shard) (r : Role) (ih : InfoHash) (p : Peer) (j : Result ℕ)
    → j ≢ ok i
    → found_at (set shards i sh) j r ih p ≡ found_at shards j r ih p
found_elsewhere shards i sh r ih p (ok j) n =
    rw (get_elem?-set_ne shards i j sh (λ e. n (ap ok (sym e))))
found_elsewhere shards i sh r ih p (err e) n = refl
found_elsewhere shards i sh r ih p panic n = refl

module _ (ps : PeerStore) (w : IsWell ps) (ih : InfoHash) (p : Peer) (long : 4 ≤ length ih)
    {A : Type 0} (f : Shard → Result A × Shard) where
  chosen :
      (i : ℕ) × (sh : Shard) × (shard_index ps ih (is6 (addr p)) ≡ ok i)
      × (get_elem? ps.shards i ≡ some sh)
      × (select_shard ps ih (is6 (addr p)) ≡ ok (i, sh))
  chosen = select_shard_total ps w.sized ih (is6 (addr p)) long

  abbrev after : PeerStore
  after = record ps { shards = set ps.shards chosen.0 (f chosen.1).1 }

  on_shard-after : on_shard ps ih (is6 (addr p)) f ≡ ((f chosen.1).0, after)
  unfolding on_shard
  on_shard-after = rw (chosen.4, on_shard)

  shard-IsCounted : IsCounted chosen.1
  shard-IsCounted = All-get_elem? IsCounted ps.shards chosen.0 chosen.1 w.counted chosen.3

  after-IsWell : IsCounted (f chosen.1).1 → IsWell after
  after-IsWell c = record {
    sized = record {
      half = w.sized.half;
      size = length-set ps.shards chosen.0 (f chosen.1).1 ∙ w.sized.size;
      positive = w.sized.positive;
      bounded = w.sized.bounded;
    };
    counted = All-set IsCounted ps.shards chosen.0 (f chosen.1).1 w.counted c;
  }

  index_after : (jh : InfoHash) (v6 : Bool) → shard_index after jh v6 ≡ shard_index ps jh v6
  unfolding shard_index
  index_after jh v6 = rw length-set

  view_here :
      (role : Role) (jh : InfoHash) (q : Peer)
      → shard_index ps jh (is6 (addr q)) ≡ ok chosen.0
      → (store_view after role jh q ≡ shard_view (f chosen.1).1 role jh q)
        × (store_view ps role jh q ≡ shard_view chosen.1 role jh q)
  view_here role jh q e = (
    view_by after role jh q (ok chosen.0) (index_after jh (is6 (addr q)) ∙ e)
        ∙ shard_of-some _ role jh q (get_elem?-set_self ps.shards chosen.0 _ chosen.1 chosen.3),
    view_by ps role jh q (ok chosen.0) e ∙ shard_of-some _ role jh q chosen.3,
  )

  view_elsewhere :
      (role : Role) (jh : InfoHash) (q : Peer) (j : Result ℕ)
      → shard_index ps jh (is6 (addr q)) ≡ j
      → j ≢ ok chosen.0
      → store_view after role jh q ≡ store_view ps role jh q
  view_elsewhere role jh q j e n =
      view_by after role jh q j (index_after jh (is6 (addr q)) ∙ e)
      ∙ (found_elsewhere ps.shards chosen.0 (f chosen.1).1 role jh q j n
          ∙ sym (view_by ps role jh q j e))

  after-view :
      (u : View → View)
      → IsLocal u ih p
      → ((role : Role) (jh : InfoHash) (q : Peer)
          → shard_view (f chosen.1).1 role jh q ≡ u (shard_view chosen.1) role jh q)
      → (role : Role) (jh : InfoHash) (q : Peer)
      → store_view after role jh q ≡ u (store_view ps) role jh q
  after-view u local v role jh q = elim (Result-dec (shard_index ps jh (is6 (addr q))) chosen.0) [
    | inl same ↦
        (view_here role jh q same).0
        ∙ (v role jh q
            ∙ local.reads (shard_view chosen.1) (store_view ps) role jh q
                (sym (view_here role jh q same).1))
    | inr other ↦
        view_elsewhere role jh q _ refl other
        ∙ sym (
            local.outside (store_view ps) role jh q (elim (Bytes-discrete jh ih) [
              | no n ↦ inl n
              | yes e ↦ inr (λ k. other (
                  ap (λ x. shard_index ps x (is6 (addr q))) e
                  ∙ (ap (λ x. shard_index ps ih (is6 (addr x))) k ∙ chosen.2)))
            ]))
  ]

-- What a call on one shard does: if it keeps the counters of a shard right and changes the view of a
-- shard by `u`, then it keeps the store well formed and changes the store's view by `u`.
pub record Runs (u : View → View) (ps ps' : PeerStore) : Type 0 where
  pub well : IsWell ps'
  pub still_open : ps'.closed ≡ ps.closed
  pub view : store_view ps' ≡ u (store_view ps)

pub on_shard-Runs :
    (ps : PeerStore) (ih : InfoHash) (p : Peer) {A : Type 0} (f : Shard → Result A × Shard)
    (u : View → View)
    → IsWell ps
    → 4 ≤ length ih
    → IsLocal u ih p
    → ((sh : Shard) → IsCounted sh → IsCounted (f sh).1)
    → ((sh : Shard)
        → IsCounted sh
        → (r : Role) (jh : InfoHash) (q : Peer)
        → shard_view (f sh).1 r jh q ≡ u (shard_view sh) r jh q)
    → Runs u ps (on_shard ps ih (is6 (addr p)) f).1
on_shard-Runs ps ih p f u w long local keeps changes =
    let c = shard-IsCounted ps w ih p long f in
    let sh = (chosen ps w ih p long f).1 in
    rw (on_shard-after ps w ih p long f) (record {
      well = after-IsWell ps w ih p long f (keeps sh c);
      still_open = refl;
      view = fun_ext (λ r.
          fun_ext (λ jh. fun_ext (λ q. after-view ps w ih p long f u local (changes sh c) r jh q)));
    })
