-- ===== src/Storage/Redis/Calls.antt =====
-- storage/redis/storage.go: what each call that changes a swarm does to the hashes.
use mochi.Base.{
  ◌≡◌, refl, ap, ◌∙◌, true, false, Option, none, some, List, [], ◌∷◌, map, All, inl, inr,
  if◌then◌else◌, Option-cases,
}
use mochi.Base.Bytes.{Bytes}
use mochi.Base.Int.{ℤ}
use mochi.Netip.{is6}
use mochi.Result.{Result, ok, err, err_resource_does_not_exist}
use mochi.Bittorrent.Peer.{Peer, addr}
use mochi.Bittorrent.Hash.{InfoHash}
use mochi.Storage.Memory.View.{seeder, leecher}
use mochi.Storage.Redis.{
  Client, Command, hset, hdel, hincr_by, incr, sadd, no_result_err, pack_peer, ih_key,
  count_seeder_key, count_downloads_key,
}
use mochi.Storage.Redis.Write.{
  any_error, err_commands, tx, put_commands, put_peer, del_peer, queue_all, graduate_commands,
  graduate_leecher,
}
use mochi.Storage.Redis.Store.{
  Fields, ran, set_field, IsSwarmKey, IsCounter, IsTyped, IsRedis, role_key,
}

-- what a delete says: whether there was something to delete
abbrev pub deletion : Option ℤ → Result (Unit {0})
deletion none = err err_resource_does_not_exist
deletion (some t) = ok tt

module _ {S : Type 0} (Good : S → Type 0) (field : S → Fields) (c : Client S)
    (redis : IsRedis Good field c) where
  -- a call that ends with a result and changes the hashes by a function
  abbrev pub Does : Result (Unit {0}) → (Fields → Fields) → Result (Unit {0}) × S → S → Type 0
  Does r f o s =
      (s' : S) × (o ≡ (r, s')) × Good s' × ((k g : Bytes) → field s' k g ≡ f (field s) k g)

  no_error : (cmds : List Command) → any_error (map (λ cmd. none) cmds) ≡ false
  no_error [] = refl
  no_error (cmd ∷ cmds) = no_error cmds

  tx-Does :
      (cmds : List Command) (s : S)
      → Good s
      → All IsTyped cmds
      → Does (ok tt) (ran cmds) (tx c (ok cmds) s) s
  unfolding tx
  tx-Does cmds s g t =
      let (s', e, g', v) = redis.tx_runs cmds s g t in
      (s', rw e (ap (λ b. (if b then err err_commands else ok tt, s')) (no_error cmds)), g', v)

  pub put_peer-Does :
      (now : ℤ) (k count id : Bytes) (s : S)
      → Good s
      → IsSwarmKey k
      → IsCounter count
      → Does (ok tt) (set_field k id (some now)) (put_peer c now k count id s) s
  unfolding put_peer put_commands
  put_peer-Does now k count id s g h n =
      rw
        (
          redis.queued_zero (hset k id now),
          redis.queued_zero (incr count),
          redis.queued_zero (sadd ih_key k),
        )
        (tx-Does (hset k id now ∷ incr count ∷ sadd ih_key k ∷ []) s g (h, (n, (refl, tt))))

  pub del_peer-Does :
      (k count id : Bytes) (s : S)
      → Good s
      → IsSwarmKey k
      → IsCounter count
      → Does (deletion (field s k id)) (set_field k id none) (del_peer c k count id s) s
  unfolding del_peer no_result_err
  del_peer-Does k count id s g h n =
      let (s', e, g', v) = redis.hdel_deletes k id s g h in
      let (m, s'', e', g'', v') = redis.decr_keeps count s' g' n in
      elim (Option-cases (field s k id)) [
        | inl q ↦ (s', rw (e, q) refl, g', v)
        | inr (t, q) ↦ (s'', rw (e, q, e') refl, g'', λ j i. v' j i ∙ v j i)
      ]

  queue_all_ok : (cmds : List Command) → queue_all c cmds ≡ ok tt
  unfolding queue_all
  queue_all_ok [] = refl
  queue_all_ok (cmd ∷ cmds) = rw (redis.queued_zero cmd, queue_all_ok cmds) refl

  -- The commands of a graduation never count the leecher down: its deletion is only queued when its result is read.
  pub graduate-Does :
      (ih : InfoHash) (p : Peer) (now : ℤ) (s : S)
      → Good s
      → Does
          (ok tt)
          (λ t.
            set_field
              (role_key seeder ih p)
              (pack_peer p)
              (some now)
              (set_field (role_key leecher ih p) (pack_peer p) none t))
          (graduate_leecher c ih p now s)
          s
  unfolding graduate_leecher graduate_commands no_result_err
  graduate-Does ih p now s g =
      let l = role_key leecher ih p in
      let k = role_key seeder ih p in
      let cmds =
        hdel l (pack_peer p)
        ∷ hset k (pack_peer p) now
        ∷ incr count_seeder_key
        ∷ sadd ih_key k
        ∷ hincr_by count_downloads_key ih 1
        ∷ [] in
      rw (redis.queued_zero (hdel l (pack_peer p)), queue_all_ok)
        (tx-Does cmds s g (
          (ih, false, is6 (addr p), refl),
          ((ih, true, is6 (addr p), refl), (inl refl, (refl, (refl, tt)))),
        ))
