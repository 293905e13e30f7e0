-- ===== src/Storage/Redis/Gc/Cleans.antt =====
-- storage/redis/storage.go: what the garbage collector does to one hash.
use mochi.Base.{
  ℕ, ◌+◌, ◌≡◌, refl, ap, sym, ◌∙◌, Bool, true, Option, none, List, [], ◌∷◌, arith, ite,
  if◌then◌else◌, ◌==◌, ==_iff, Bool-cases, inl, inr, ltb,
}
use mochi.Base.Bytes.{Bytes, Bytes-discrete}
use mochi.Base.Int.{ℤ}
use mochi.Result.{ok}
use mochi.Storage.Redis.{no_result_err}
use mochi.Storage.Redis.Store.{Fields}
use mochi.Storage.Redis.Gc.{
  GcClient, logged, counted_one, delete_each, all_deleted, delete_peers, count_down, remove_peers,
  remove_empty,
}
use mochi.Storage.Redis.Gc.Collects.{has, is_swarm, Same, Loses, IsCollectable, IsListed}
use mochi.Storage.Redis.Gc.Rows.{without_cons, without_none}

module _ {S : Type 0} (Good : S → Type 0) (field : S → Fields) (listed : S → Bytes → Bool)
    (parse : Bytes → Option ℤ) (c : GcClient S)
    (redis : IsCollectable Good field listed parse c) where
  pub Loses-Same :
      (k : Bytes) (fs : List Bytes) (s s' s'' : S)
      → Same Good field listed s s'
      → Loses Good field listed k fs s' s''
      → Loses Good field listed k fs s s''
  Loses-Same k fs s s' s'' (g, l, v) (g', l', v') = (
    g',
    λ j. l' j ∙ l j,
    λ j f. v' j f ∙ ap (λ x. ite (Bytes-discrete j k) (if has f fs then none else x) x) (v j f),
  )

  delete_each-Loses :
      (k : Bytes) (fs : List Bytes) (n : ℕ) (s : S)
      → Good s
      → is_swarm k ≡ true
      → (m : ℕ) × (s' : S) × (delete_each parse c k fs n s ≡ (ok m, s'))
        × Loses Good field listed k fs s s'
  unfolding delete_each counted_one no_result_err
  delete_each-Loses k [] n s g h =
      (n, s, refl, (g, (λ j. refl), λ j f. sym (without_none k (field s) j f)))
  delete_each-Loses k (p ∷ ps) n s g h =
      let (i, s', e, (g', l, v)) = redis.hdel_one_deletes k p s g h in
      let (m, s'', e', (g'', l', v')) = delete_each-Loses k ps (n + i) s' g' h in
      (
        m,
        s'',
        rw (e, e') refl,
        (g'', (λ j. l' j ∙ l j), λ j f. v' j f ∙ without_cons k p ps (field s) (field s') v j f),
      )

  delete_peers-Loses :
      (k : Bytes) (fs : List Bytes) (s : S)
      → Good s
      → is_swarm k ≡ true
      → (m : ℕ) × (s' : S) × (delete_peers parse c k fs s ≡ (ok m, s'))
        × Loses Good field listed k fs s s'
  unfolding delete_peers all_deleted
  delete_peers-Loses k fs s g h = elim (redis.hdel_all_deletes k fs s g h) [
    | inl (n, s', e, v) ↦ (n, s', rw e refl, v)
    | inr (x, e, not_nil, arg_num) ↦
        let (m, s', e', v) = delete_each-Loses k fs 0 s g h in
        (m, s', rw (e, not_nil, arg_num, e') refl, v)
  ]

  count_down-Same :
      (k : Bytes) (n : ℕ) (s : S)
      → Good s
      → (s' : S) × (count_down parse c k n s ≡ (ok tt, s')) × Same Good field listed s s'
  unfolding count_down logged
  count_down-Same k n s g = elim (Bool-cases (ltb 0 n)) [
    | inl e ↦ let (s', e', v) = redis.decr_by_keeps k n s g in (s', rw (e, e') refl, v)
    | inr e ↦ (s, rw e refl, (g, (λ j. refl), λ j f. refl))
  ]

  pub remove_peers-Loses :
      (count k : Bytes) (fs : List Bytes) (s : S)
      → Good s
      → is_swarm k ≡ true
      → (s' : S) × (remove_peers parse c count k fs s ≡ (ok tt, s'))
        × Loses Good field listed k fs s s'
  unfolding remove_peers
  remove_peers-Loses count k [] s g h =
      (s, refl, (g, (λ j. refl), λ j f. sym (without_none k (field s) j f)))
  remove_peers-Loses count k (p ∷ ps) s g h =
      let (n, s', e, (g', l, v)) = delete_peers-Loses k (p ∷ ps) s g h in
      let (s'', e', (g'', l', v')) = count_down-Same count n s' g' in
      (s'', rw (e, e') refl, (g'', (λ j. l' j ∙ l j), λ j f. v' j f ∙ v j f))

  -- Only a swarm without peers is no longer listed.
  abbrev pub Unlists : Bytes → S → S → Type 0
  Unlists k s s' =
      Good s'
      × ((j g : Bytes) → field s' j g ≡ field s j g)
      × (IsListed Good field listed s → IsListed Good field listed s')

  Same-Unlists : (k : Bytes) (s s' : S) → Same Good field listed s s' → Unlists k s s'
  Same-Unlists k s s' (g, l, v) = (g, v, λ h j w n f. v j f ∙ h j w (sym (l j) ∙ n) f)

  pub remove_empty-Unlists :
      (k : Bytes) (s : S)
      → Good s
      → is_swarm k ≡ true
      → (s' : S) × (remove_empty parse c k s ≡ (ok tt, s')) × Unlists k s s'
  unfolding remove_empty no_result_err
  remove_empty-Unlists k s g h =
      let (n, s', e, (g', l, v), empty) = redis.hlen_counts k s g h in
      elim (Bool-cases (n == 0)) [
        | inl z ↦
            let (s'', e', g'', l', v') = redis.srem_removes k s' g' in
            (
              s'',
              rw (e, z, e') refl,
              (
                g'',
                (λ j f. v' j f ∙ v j f),
                λ all j w out f. v' j f ∙ v j f ∙ elim (Bytes-discrete j k) [
                  | yes q ↦ ap (λ x. field s x f) q ∙ empty ((==_iff _ _).0 z) f
                  | no q ↦ all j w (ground (arith, q, out, l' j, l j)) f
                ],
              ),
            )
        | inr z ↦ (s', rw (e, z) refl, Same-Unlists k s s' (g', l, v))
      ]
