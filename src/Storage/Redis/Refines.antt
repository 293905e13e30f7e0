-- ===== src/Storage/Redis/Refines.antt =====
-- storage/redis/storage.go: any sequence of puts, deletes and graduations against the specification that the
-- memory storage refines too.
use mochi.Base.{
  ◌≡◌, refl, ap, ◌∙◌, true, false, Option, none, some, List, [], ◌∷◌, map, All, ite, inl, inr,
}
use mochi.Base.Bytes.{Bytes, Bytes-discrete}
use mochi.Base.Int.{ℤ}
use mochi.Netip.{is6}
use mochi.Result.{Result, ok, Act}
use mochi.Bittorrent.Peer.{Peer, Peer-discrete, addr}
use mochi.Bittorrent.Hash.{InfoHash}
use mochi.Storage.Memory.View.{Role, seeder, leecher, View, assign}
use mochi.Storage.Memory.Tracker.{Call, seed, leech, unseed, unleech, graduate, spec, spec_run}
use mochi.Storage.Redis.{Client, pack_peer, count_seeder_key, count_leecher_key}
use mochi.Storage.Redis.Write.{
  put_seeder, delete_seeder, put_leecher, delete_leecher, graduate_leecher,
}
use mochi.Storage.Redis.Store.{
  Fields, set_field, IsRedis, IsStorable, role_key, view_of, view-set_field,
}
use mochi.Storage.Redis.Calls.{deletion, put_peer-Does, del_peer-Does, graduate-Does}

-- A call that changes a swarm.
pub data Write : Type 0 where
  put : Role → ℤ → InfoHash → Peer → Write
  remove : Role → InfoHash → Peer → Write
  promote : ℤ → InfoHash → Peer → Write

abbrev pub call_of : Write → Call
call_of (put seeder now ih p) = seed now ih p
call_of (put leecher now ih p) = leech now ih p
call_of (remove seeder ih p) = unseed ih p
call_of (remove leecher ih p) = unleech ih p
call_of (promote now ih p) = graduate now ih p

abbrev pub peer_of : Write → Peer
peer_of (put r now ih p) = p
peer_of (remove r ih p) = p
peer_of (promote now ih p) = p

-- The call as the store runs it.
abbrev pub write : {S : Type 0} → Client S → Write → Act S (Unit {0})
write c (put seeder now ih p) s = put_seeder c ih p now s
write c (put leecher now ih p) s = put_leecher c ih p now s
write c (remove seeder ih p) s = delete_seeder c ih p s
write c (remove leecher ih p) s = delete_leecher c ih p s
write c (promote now ih p) s = graduate_leecher c ih p now s

unfoldable pub write_all : {S : Type 0} → Client S → List Write → S → S
write_all c [] s = s
write_all c (w ∷ ws) s = write_all c ws (write c w s).1

-- Two tables agree on the peers that are stored as they are.
abbrev pub Agree : View → View → Type 0
Agree v w = (r : Role) (ih : InfoHash) (p : Peer) → IsStorable p → v r ih p ≡ w r ih p

pub assign_cong :
    (r : Role) (ih : InfoHash) (p : Peer) (o : Option ℤ) (v w : View) (r' : Role) (jh : InfoHash)
    (q : Peer)
    → v r' jh q ≡ w r' jh q
    → assign r ih p o v r' jh q ≡ assign r ih p o w r' jh q
unfolding assign
assign_cong seeder ih p o v w seeder jh q e =
    ap (λ x. ite (Bytes-discrete jh ih) (ite (Peer-discrete q p) o x) x) e
assign_cong leecher ih p o v w leecher jh q e =
    ap (λ x. ite (Bytes-discrete jh ih) (ite (Peer-discrete q p) o x) x) e
assign_cong seeder ih p o v w leecher jh q e = e
assign_cong leecher ih p o v w seeder jh q e = e

spec-Agree :
    (w : Write) (v v' : View) → Agree v v' → Agree (spec (call_of w) v) (spec (call_of w) v')
unfolding spec
spec-Agree (put seeder now ih p) v v' h r jh q k =
    assign_cong seeder ih p (some now) v v' r jh q (h r jh q k)
spec-Agree (put leecher now ih p) v v' h r jh q k =
    assign_cong leecher ih p (some now) v v' r jh q (h r jh q k)
spec-Agree (remove seeder ih p) v v' h r jh q k =
    assign_cong seeder ih p none v v' r jh q (h r jh q k)
spec-Agree (remove leecher ih p) v v' h r jh q k =
    assign_cong leecher ih p none v v' r jh q (h r jh q k)
spec-Agree (promote now ih p) v v' h r jh q k =
    assign_cong seeder ih p (some now) _ _ r jh q
      (assign_cong leecher ih p none v v' r jh q (h r jh q k))

pub spec_run-Agree :
    (ws : List Write) (v v' : View)
    → Agree v v'
    → Agree (spec_run (map call_of ws) v) (spec_run (map call_of ws) v')
unfolding spec_run
spec_run-Agree [] v v' h = h
spec_run-Agree (w ∷ ws) v v' h = spec_run-Agree ws _ _ (spec-Agree w v v' h)

-- what a call says, by the table before it
abbrev pub answer : Write → View → Result (Unit {0})
answer (put r now ih p) v = ok tt
answer (remove r ih p) v = deletion (v r ih p)
answer (promote now ih p) v = ok tt

module _ {S : Type 0} (Good : S → Type 0) (field : S → Fields) (c : Client S)
    (redis : IsRedis Good field c) where
  -- A call on a store says, and does to the table, what the specification does.
  abbrev Follows : Write → S → Type 0
  Follows w s =
      (s' : S) × (write c w s ≡ (answer w (view_of (field s)), s'))
      × Good s'
      × Agree (view_of (field s')) (spec (call_of w) (view_of (field s)))

  -- a role's key and counter
  follows_one :
      (r : Role) (ih : InfoHash) (p : Peer) (o : Option ℤ) (s s' : S)
      → IsStorable p
      → ((k g : Bytes) → field s' k g ≡ set_field (role_key r ih p) (pack_peer p) o (field s) k g)
      → Agree (view_of (field s')) (assign r ih p o (view_of (field s)))
  follows_one r ih p o s s' h v r' jh q k = v _ _ ∙ view-set_field r ih p o (field s) r' jh q h k

  write-Follows : (w : Write) (s : S) → Good s → IsStorable (peer_of w) → Follows w s
  unfolding spec put_seeder put_leecher delete_seeder delete_leecher
  write-Follows (put seeder now ih p) s g h =
      let (s', e, g', v) =
        put_peer-Does Good field c redis now (role_key seeder ih p) count_seeder_key (pack_peer p) s
          g (ih, true, is6 (addr p), refl) (inl refl) in
      (s', e, g', follows_one seeder ih p (some now) s s' h v)
  write-Follows (put leecher now ih p) s g h =
      let (s', e, g', v) =
        put_peer-Does Good field c redis now (role_key leecher ih p) count_leecher_key (pack_peer p)
          s g (ih, false, is6 (addr p), refl) (inr refl) in
      (s', e, g', follows_one leecher ih p (some now) s s' h v)
  write-Follows (remove seeder ih p) s g h =
      let (s', e, g', v) =
        del_peer-Does Good field c redis (role_key seeder ih p) count_seeder_key (pack_peer p) s g
          (ih, true, is6 (addr p), refl) (inl refl) in
      (s', e, g', follows_one seeder ih p none s s' h v)
  write-Follows (remove leecher ih p) s g h =
      let (s', e, g', v) =
        del_peer-Does Good field c redis (role_key leecher ih p) count_leecher_key (pack_peer p) s g
          (ih, false, is6 (addr p), refl) (inr refl) in
      (s', e, g', follows_one leecher ih p none s s' h v)
  write-Follows (promote now ih p) s g h =
      let (s', e, g', v) = graduate-Does Good field c redis ih p now s g in
      let t = set_field (role_key leecher ih p) (pack_peer p) none (field s) in
      (
        s',
        e,
        g',
        λ r jh q k.
            v _ _
            ∙ view-set_field seeder ih p (some now) t r jh q h k
            ∙ assign_cong seeder ih p (some now) _ _ r jh q
                (view-set_field leecher ih p none (field s) r jh q h k),
      )

  -- Over a client that does what Redis documents, any sequence of puts, deletes and graduations acts on the
  -- times of the peers as the specification that the memory storage refines, for peers with identifiers of
  -- 20 bytes, ports of 16 bits and plain addresses.
  pub write_all-refines :
      (ws : List Write) (s : S)
      → Good s
      → All (λ w. IsStorable (peer_of w)) ws
      → Good (write_all c ws s)
        × Agree (view_of (field (write_all c ws s))) (spec_run (map call_of ws) (view_of (field s)))
  unfolding write_all spec_run
  write_all-refines [] s g h = (g, λ r jh q k. refl)
  write_all-refines (w ∷ ws) s g h =
      let (s', e, g', a) = write-Follows w s g h.0 in
      let (g'', a') = write_all-refines ws s' g' h.1 in
      rw e (g'', λ r jh q k. a' r jh q k ∙ spec_run-Agree ws _ _ a r jh q k)

  -- Over a client that does what Redis documents, for peers with identifiers of 20 bytes, ports of 16 bits
  -- and plain addresses, a put and a graduation succeed, and a delete succeeds exactly if the peer was there
  -- and else fails with ErrResourceDoesNotExist.
  pub write-answer :
      (w : Write) (s : S)
      → Good s
      → IsStorable (peer_of w)
      → (write c w s).0 ≡ answer w (view_of (field s))
  write-answer w s g h = let (s', e, g', a) = write-Follows w s g h in ap (λ x. x.0) e
