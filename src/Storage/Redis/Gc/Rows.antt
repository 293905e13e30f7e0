-- ===== src/Storage/Redis/Gc/Rows.antt =====
-- storage/redis/storage.go: the fields that the garbage collector removes from one hash.
use mochi.Base.{
  ◌≡◌, refl, ap, sym, ◌∙◌, Bool, true, false, Option, none, some, List, [], ◌∷◌, map, ite,
  if◌then◌else◌, arith, Bool-cases, inl, inr,
}
use mochi.Base.Bytes.{Bytes, Bytes-discrete}
use mochi.Base.Int.{ℤ, leb_ℤ}
use mochi.Storage.Memory.Purge.{expire}
use mochi.Storage.Redis.Store.{Fields}
use mochi.Storage.Redis.Gc.{GcClient, is_stale, peers_to_remove}
use mochi.Storage.Redis.Gc.Collects.{has, without, read_field, AreDistinct}

-- Fields that are deleted one after the other are deleted.
without_shape :
    {A B : Type 0} (dk : Dec A) (dp : Dec B) (b : Bool) (o : Option ℤ)
    → ite dk (if ite dp true b then none else o) o
      ≡ ite dk
          (if b then none else ite dk (if ite dp true false then none else o) o)
          (ite dk (if ite dp true false then none else o) o)
without_shape (yes x) (yes y) true o = refl
without_shape (yes x) (yes y) false o = refl
without_shape (yes x) (no y) true o = refl
without_shape (yes x) (no y) false o = refl
without_shape (no x) (yes y) b o = refl
without_shape (no x) (no y) b o = refl

pub without_cons :
    (k p : Bytes) (ps : List Bytes) (t t' : Fields)
    → ((j g : Bytes) → t' j g ≡ without k (p ∷ []) t j g)
    → (j g : Bytes) → without k ps t' j g ≡ without k (p ∷ ps) t j g
without_cons k p ps t t' h j g =
    ap (λ x. ite (Bytes-discrete j k) (if has g ps then none else x) x) (h j g)
    ∙ sym (without_shape (Bytes-discrete j k) (Bytes-discrete g p) (has g ps) (t j g))

pub without_none : (k : Bytes) (t : Fields) (j g : Bytes) → without k [] t j g ≡ t j g
without_none k t j g = go (Bytes-discrete j k)
  where
    go : {A : Type 0} (d : Dec A) → ite d (t j g) (t j g) ≡ t j g
    go (yes e) = refl
    go (no n) = refl

pub expire_stale :
    (cutoff : ℤ) (o : Option ℤ) → (if is_stale cutoff o then none else o) ≡ expire cutoff o
unfolding is_stale
expire_stale cutoff none = refl
expire_stale cutoff (some t) = refl

pub expire_twice : (cutoff : ℤ) (o : Option ℤ) → expire cutoff (expire cutoff o) ≡ expire cutoff o
expire_twice cutoff none = refl
expire_twice cutoff (some t) = elim (Bool-cases (leb_ℤ t cutoff)) [
  | inl e ↦ rw e refl
  | inr e ↦ rw (e, e) refl
]

module _ {S : Type 0} (parse : Bytes → Option ℤ) (c : GcClient S) (cutoff : ℤ) where
  has-peers_to_remove :
      (f : Bytes) (es : List (Bytes × Bytes))
      → has f (map (λ e. e.0) es) ≡ false
      → has f (peers_to_remove parse c cutoff es) ≡ false
  unfolding peers_to_remove
  has-peers_to_remove f [] h = refl
  has-peers_to_remove f ((g, txt) ∷ es) h =
      let later : has f (map (λ e. e.0) es) ≡ false = ground (arith, h) in
      let rest = has-peers_to_remove f es later in ground (arith, h, rest)

  -- The fields that stay are those that the specification keeps.
  pub peers_to_remove-expire :
      (f : Bytes) (es : List (Bytes × Bytes))
      → AreDistinct es
      → (if has f (peers_to_remove parse c cutoff es) then none else read_field parse es f)
        ≡ expire cutoff (read_field parse es f)
  unfolding peers_to_remove
  peers_to_remove-expire f [] h = refl
  peers_to_remove-expire f ((g, txt) ∷ es) h = elim (Bytes-discrete f g) [
    | yes e ↦
        let rest = has-peers_to_remove f es (ap (λ x. has x (map (λ e. e.0) es)) e ∙ h.0) in
        let end = expire_stale cutoff (parse txt) in ground (arith, e, rest, end)
    | no n ↦ let rest = peers_to_remove-expire f es h.1 in ground (arith, n, rest)
  ]
