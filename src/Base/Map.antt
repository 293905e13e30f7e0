-- ===== src/Base/Map.antt =====
-- Go's built-in maps: association lists with at most one entry for a key. The order of the entries
-- stands for the order in which `range` meets them.
use mathlib.Core.Path.{◌≡◌, subst}
use mathlib.Core.Logic.{ite, if_pos, if_neg}
use mathlib.Core.Bool.{Bool, true, false}
use mathlib.Core.List.{List, [], ◌∷◌}
use mathlib.Core.Option.{Option, none, some}
use Prim.Native.Nat.{ℕ, ◌+◌}
use native.Mathlib.Omega.{arith}
use mochi.Base.Lists.{length, All}
use mochi.Base.Tests.{if◌then◌else◌}

abbrev pub Map {ℓ} : Type ℓ → Type ℓ → Type ℓ
Map K V = List (K × V)

abbrev pub is_some {ℓ} : {A : Type ℓ} → Option A → Bool
is_some none = false
is_some (some a) = true

module _ {ℓ} {K V : Type ℓ} (dec : Discrete K) where
  unfoldable pub get : K → Map K V → Option V
  get k [] = none
  get k ((j, v) ∷ m) = ite (dec k j) (some v) (get k m)

  -- `m[k] = v`
  unfoldable pub insert : K → V → Map K V → Map K V
  insert k v [] = (k, v) ∷ []
  insert k v ((j, w) ∷ m) = ite (dec k j) ((j, v) ∷ m) ((j, w) ∷ insert k v m)

  -- `delete(m, k)`
  unfoldable pub delete : K → Map K V → Map K V
  delete k [] = []
  delete k ((j, w) ∷ m) = ite (dec k j) m ((j, w) ∷ delete k m)

  abbrev pub contains : K → Map K V → Bool
  contains k m = is_some (get k m)

  -- No key stands twice.
  abbrev pub IsMap : Map K V → Type ℓ
  IsMap [] = Unit
  IsMap ((k, v) ∷ m) = (get k m ≡ none) × IsMap m

  pub get-insert :
      (j k : K) (v : V) (m : Map K V) → get j (insert k v m) ≡ ite (dec j k) (some v) (get j m)
  unfolding get insert
  get-insert j k v [] = ground arith
  get-insert j k v ((i, w) ∷ m) = ground (arith, get-insert j k v m)

  pub get-delete :
      (j k : K) (m : Map K V) → IsMap m → get j (delete k m) ≡ ite (dec j k) none (get j m)
  unfolding get delete
  get-delete j k [] h = ground arith
  get-delete j k ((i, w) ∷ m) h = ground (arith, get-delete j k m)

  pub insert-IsMap : (k : K) (v : V) (m : Map K V) → IsMap m → IsMap (insert k v m)
  unfolding get insert
  insert-IsMap k v [] h = ground arith
  insert-IsMap k v ((i, w) ∷ m) h = ground (arith, insert-IsMap k v m, get-insert i k v m)

  pub delete-IsMap : (k : K) (m : Map K V) → IsMap m → IsMap (delete k m)
  unfolding get delete
  delete-IsMap k [] h = tt
  delete-IsMap k ((i, w) ∷ m) h = ground (arith, delete-IsMap k m, get-delete i k m)

  pub length-insert :
      (k : K) (v : V) (m : Map K V)
      → length (insert k v m) ≡ (if contains k m then length m else length m + 1)
  unfolding get insert
  length-insert k v [] = ground arith
  length-insert k v ((i, w) ∷ m) = ground (arith, length-insert k v m)

  pub length-delete :
      (k : K) (m : Map K V)
      → (if contains k m then length (delete k m) + 1 else length (delete k m)) ≡ length m
  unfolding get delete
  length-delete k [] = ground arith
  length-delete k ((i, w) ∷ m) = ground (arith, length-delete k m)

  -- The sum of a measure over the values.
  module _ (f : V → ℕ) where
    unfoldable pub total : Map K V → ℕ
    total [] = 0
    total ((k, v) ∷ m) = f v + total m

    abbrev pub measure : Option V → ℕ
    measure none = 0
    measure (some v) = f v

    pub total-insert :
        (k : K) (v : V) (m : Map K V) → total (insert k v m) + measure (get k m) ≡ total m + f v
    unfolding get insert total
    total-insert k v [] = omega arith
    total-insert k v ((j, w) ∷ m) = ground (arith, total-insert k v m)

    pub total-delete : (k : K) (m : Map K V) → total (delete k m) + measure (get k m) ≡ total m
    unfolding get delete total
    total-delete k [] = omega arith
    total-delete k ((j, w) ∷ m) = ground (arith, total-delete k m)

  -- A property of every value.
  module _ (P : V → Type ℓ) where
    abbrev pub Values : Map K V → Type ℓ
    Values = All (λ e. P e.1)

    pub Values-insert : (k : K) (v : V) (m : Map K V) → Values m → P v → Values (insert k v m)
    unfolding insert
    Values-insert k v [] h p = (p, tt)
    Values-insert k v ((j, w) ∷ m) h p = elim (dec k j) [
      | yes e ↦ rw (if_pos _ e) (p, h.1)
      | no n ↦ rw (if_neg _ n) (h.0, Values-insert k v m h.1 p)
    ]

    pub Values-delete : (k : K) (m : Map K V) → Values m → Values (delete k m)
    unfolding delete
    Values-delete k [] h = tt
    Values-delete k ((j, w) ∷ m) h = elim (dec k j) [
      | yes e ↦ rw (if_pos _ e) h.1
      | no n ↦ rw (if_neg _ n) (h.0, Values-delete k m h.1)
    ]

    pub Values-get : (k : K) (v : V) (m : Map K V) → Values m → get k m ≡ some v → P v
    unfolding get
    Values-get k v [] h e = cc
    Values-get k v ((j, w) ∷ m) h e = elim (dec k j) [
      | yes q ↦ let r : w ≡ v = ground arith in subst P r h.0
      | no n ↦ Values-get k v m h.1 (ground arith)
    ]
