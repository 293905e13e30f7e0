-- ===== src/Storage/KeyDb/Refines.antt =====
-- storage/keydb/storage.go: any sequence of puts, deletes and graduations against the specification that the
-- memory storage refines, with the times left out.
use mochi.Base.{
  ◌≡◌, refl, ap, sym, ◌∙◌, Option, none, some, List, [], ◌∷◌, map, All, arith, ite, if◌then◌else◌,
  Option-cases, inl, inr,
}
use mochi.Base.{ℕ}
use mochi.Base.Bytes.{Bytes, Bytes-discrete}
use mochi.Base.Map.{is_some}
use mochi.Base.Int.{ℤ, pos}
use mochi.Result.{ok, Act}
use mochi.Storage.Memory.View.{seeder, leecher}
use mochi.Storage.Memory.Tracker.{spec, spec_run}
use mochi.Bittorrent.Peer.{Peer}
use mochi.Bittorrent.Hash.{InfoHash}
use mochi.Storage.Redis.{pack_peer, no_result_err}
use mochi.Storage.Redis.Store.{Fields, set_field, IsStorable, role_key, view_of, view-set_field}
use mochi.Storage.Redis.Read.{cleaned}
use mochi.Storage.Redis.Calls.{deletion}
use mochi.Storage.Redis.Refines.{
  Write, put, remove, promote, call_of, peer_of, Agree, answer, assign_cong, spec_run-Agree,
}
use mochi.Storage.KeyDb.{
  SetClient, add_peer, del_peer, deleted, put_seeder, put_leecher, delete_seeder, delete_leecher,
  after_sadd, after_smove, graduate_leecher,
}

-- A member of a set stands for the time 0, since the store keeps no times.
abbrev pub present : Option ℤ
present = some (pos 0)

-- What KeyDB and its client document: SADD adds a member, EXPIREMEMBER changes no set, SREM says how many
-- members it removed, and SMOVE moves a member that is there and says whether it was.
pub record IsKeyDb {S : Type 0} (member : S → Fields) (c : SetClient S) : Type 0 where
  pub sadd_adds :
      (k m : Bytes) (s : S)
      → (s' : S) × (c.sadd k m s ≡ (ok tt, s'))
        × ((j g : Bytes) → member s' j g ≡ set_field k m present (member s) j g)
  pub expire_keeps :
      (k m : Bytes) (ttl : ℕ) (s : S)
      → (s' : S) × (c.expire_member k m ttl s ≡ (ok tt, s'))
        × ((j g : Bytes) → member s' j g ≡ member s j g)
  pub srem_removes :
      (k m : Bytes) (s : S)
      → (s' : S) × (c.srem k m s ≡ (ok (if is_some (member s k m) then 1 else 0), s'))
        × ((j g : Bytes) → member s' j g ≡ set_field k m none (member s) j g)
  pub smove_moves :
      (k l m : Bytes) (s : S)
      → (s' : S) × (c.smove k l m s ≡ (ok (is_some (member s k m)), s'))
        × ((j g : Bytes)
            → member s' j g ≡ (
                if is_some (member s k m)
                then set_field l m present (set_field k m none (member s)) j g
                else member s j g))

-- The call as the store runs it.
abbrev pub write : {S : Type 0} → SetClient S → ℕ → Write → Act S (Unit {0})
write c ttl (put seeder now ih p) s = put_seeder c ttl ih p s
write c ttl (put leecher now ih p) s = put_leecher c ttl ih p s
write c ttl (remove seeder ih p) s = delete_seeder c ttl ih p s
write c ttl (remove leecher ih p) s = delete_leecher c ttl ih p s
write c ttl (promote now ih p) s = graduate_leecher c ttl ih p s

unfoldable pub write_all : {S : Type 0} → SetClient S → ℕ → List Write → S → S
write_all c ttl [] s = s
write_all c ttl (w ∷ ws) s = write_all c ttl ws (write c ttl w s).1

-- the call without its time
abbrev pub timeless : Write → Write
timeless (put r now ih p) = put r (pos 0) ih p
timeless (remove r ih p) = remove r ih p
timeless (promote now ih p) = promote (pos 0) ih p

set_absent :
    (k m : Bytes) (t : Fields) (j g : Bytes) → t k m ≡ none → set_field k m none t j g ≡ t j g
set_absent k m t j g h = ground (arith, h)

module _ {S : Type 0} (member : S → Fields) (c : SetClient S) (keydb : IsKeyDb member c)
    (ttl : ℕ) where
  add_peer_lem :
      (k m : Bytes) (s : S)
      → (s' : S) × (add_peer c ttl k m s ≡ (ok tt, s'))
        × ((j g : Bytes) → member s' j g ≡ set_field k m present (member s) j g)
  unfolding add_peer
  add_peer_lem k m s =
      let (s1, e, v) = keydb.sadd_adds k m s in
      let (s2, e', v') = keydb.expire_keeps k m ttl s1 in
      (s2, rw (e, e') refl, λ j g. v' j g ∙ v j g)

  deleted_says :
      (o : Option ℤ) (s : S) → deleted c ttl (ok (if is_some o then 1 else 0), s) ≡ (deletion o, s)
  unfolding deleted
  deleted_says none s = refl
  deleted_says (some t) s = refl

  del_peer_lem :
      (k m : Bytes) (s : S)
      → (s' : S) × (del_peer c ttl k m s ≡ (deletion (member s k m), s'))
        × ((j g : Bytes) → member s' j g ≡ set_field k m none (member s) j g)
  unfolding del_peer deleted no_result_err
  del_peer_lem k m s =
      let (s1, e, v) = keydb.srem_removes k m s in
      (s1, ap (λ o. deleted c ttl (cleaned 0 o)) e ∙ deleted_says (member s k m) s1, v)

  -- a field that is set over another that is not there
  set_over :
      (k l m : Bytes) (t t' : Fields)
      → ((j g : Bytes) → t' j g ≡ t j g)
      → t k m ≡ none
      → (j g : Bytes)
      → set_field l m present t' j g ≡ set_field l m present (set_field k m none t) j g
  set_over k l m t t' same absent j g =
      ap (λ x. ite (Bytes-discrete j l) (ite (Bytes-discrete g m) present x) x)
        (same j g ∙ sym (set_absent k m t j g absent))

  graduate_lem :
      (ih : InfoHash) (p : Peer) (s : S)
      → (s' : S) × (graduate_leecher c ttl ih p s ≡ (ok tt, s'))
        × ((j g : Bytes)
            → member s' j g
              ≡ set_field
                  (role_key seeder ih p)
                  (pack_peer p)
                  present
                  (set_field (role_key leecher ih p) (pack_peer p) none (member s))
                  j
                  g)
  unfolding graduate_leecher after_smove after_sadd
  graduate_lem ih p s =
      let k = role_key leecher ih p in
      let l = role_key seeder ih p in
      let (s1, e, v) = keydb.smove_moves k l (pack_peer p) s in
      elim (Option-cases (member s k (pack_peer p))) [
        | inl absent ↦
            let (s2, e', v') = keydb.sadd_adds l (pack_peer p) s1 in
            (
              s2,
              rw (e, absent, e') refl,
              λ j g.
                  v' j g
                  ∙ set_over k l (pack_peer p) (member s) (member s1)
                      (λ i f. v i f ∙ (rw absent refl)) absent j g,
            )
        | inr (t, there) ↦ (s1, rw (e, there) refl, λ j g. v j g ∙ (rw there refl))
      ]

  Follows : Write → S → Type 0
  Follows w s =
      (s' : S) × (write c ttl w s ≡ (answer w (view_of (member s)), s'))
      × Agree (view_of (member s')) (spec (call_of (timeless w)) (view_of (member s)))

  write-Follows : (w : Write) (s : S) → IsStorable (peer_of w) → Follows w s
  unfolding Follows spec put_seeder put_leecher delete_seeder delete_leecher
  write-Follows (put seeder now ih p) s h =
      let (s', e, v) = add_peer_lem (role_key seeder ih p) (pack_peer p) s in
      (s', e, λ r jh q k. v _ _ ∙ view-set_field seeder ih p present (member s) r jh q h k)
  write-Follows (put leecher now ih p) s h =
      let (s', e, v) = add_peer_lem (role_key leecher ih p) (pack_peer p) s in
      (s', e, λ r jh q k. v _ _ ∙ view-set_field leecher ih p present (member s) r jh q h k)
  write-Follows (remove seeder ih p) s h =
      let (s', e, v) = del_peer_lem (role_key seeder ih p) (pack_peer p) s in
      (s', e, λ r jh q k. v _ _ ∙ view-set_field seeder ih p none (member s) r jh q h k)
  write-Follows (remove leecher ih p) s h =
      let (s', e, v) = del_peer_lem (role_key leecher ih p) (pack_peer p) s in
      (s', e, λ r jh q k. v _ _ ∙ view-set_field leecher ih p none (member s) r jh q h k)
  write-Follows (promote now ih p) s h =
      let (s', e, v) = graduate_lem ih p s in
      let t = set_field (role_key leecher ih p) (pack_peer p) none (member s) in
      (
        s',
        e,
        λ r jh q k.
            v _ _
            ∙ view-set_field seeder ih p present t r jh q h k
            ∙ assign_cong seeder ih p present _ _ r jh q
                (view-set_field leecher ih p none (member s) r jh q h k),
      )

  runs :
      (ws : List Write) (s : S)
      → All (λ w. IsStorable (peer_of w)) ws
      → Agree
          (view_of (member (write_all c ttl ws s)))
          (spec_run (map call_of (map timeless ws)) (view_of (member s)))
  unfolding write_all spec_run Follows
  runs [] s h = λ r jh q k. refl
  runs (w ∷ ws) s h =
      let (s', e, a) = write-Follows w s h.0 in
      let rest = runs ws s' h.1 in
      rw e (λ r jh q k. rest r jh q k ∙ spec_run-Agree (map timeless ws) _ _ a r jh q k)

  -- Over a client that does what KeyDB documents, any sequence of puts, deletes and graduations acts on the
  -- peers of the swarms as the specification that the memory storage refines, with all times left out, for
  -- peers with identifiers of 20 bytes, ports of 16 bits and plain addresses; and each of them succeeds, but
  -- for a delete of a peer that is not there, which fails with ErrResourceDoesNotExist.
  pub write_all-refines_sets :
      (ws : List Write) (s : S)
      → All (λ w. IsStorable (peer_of w)) ws
      → Agree
          (view_of (member (write_all c ttl ws s)))
          (spec_run (map call_of (map timeless ws)) (view_of (member s)))
        × ((w : Write)
            → IsStorable (peer_of w)
            → (write c ttl w s).0 ≡ answer w (view_of (member s)))
  unfolding Follows
  write_all-refines_sets ws s h = (runs ws s h, λ w k. ap (λ x. x.0) (write-Follows w s k).1)
