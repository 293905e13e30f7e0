-- ===== src/Storage/Data.antt =====
-- storage/storage.go: the interface DataStorage and its entries, and what a client may rely on.
use mochi.Base.{ap, ◌∙◌, refl, if_pos, ◌≡◌, Bool, Option, none, some, List, [], ◌∷◌, ite}
use mochi.Base.Bytes.{Bytes, Bytes-discrete}
use mochi.Base.Map.{is_some}
use mochi.Result.{ok, Act}

pub record Entry : Type 0 where
  pub key : Bytes
  pub value : Bytes

-- An error of `contains` comes with the value false; a missing value is nil.
pub record DataStorage (S : Type 0) : Type 0 where
  pub put : Bytes → List Entry → Act S (Unit {0})
  pub contains : Bytes → Bytes → Act S Bool
  pub load : Bytes → Bytes → Act S (Option Bytes)
  pub delete : Bytes → List Bytes → Act S (Unit {0})
  pub preservable : Bool

-- the table of one context after entries are put, the later ones over the earlier ones
abbrev pub stored : List Entry → (Bytes → Option Bytes) → Bytes → Option Bytes
stored [] table = table
stored (e ∷ es) table = stored es (λ k. ite (Bytes-discrete k e.key) (some e.value) (table k))

-- and after keys are deleted
abbrev pub removed : List Bytes → (Bytes → Option Bytes) → Bytes → Option Bytes
removed [] t = t
removed (j ∷ ks) t = removed ks (λ k. ite (Bytes-discrete k j) none (t k))

-- The tables after the one of the context `c` has changed.
abbrev pub changed :
    Bytes
    → ((Bytes → Option Bytes) → Bytes → Option Bytes)
    → (Bytes → Bytes → Option Bytes)
    → Bytes
    → Bytes
    → Option Bytes
changed c f tables c' k = ite (Bytes-discrete c' c) (f (tables c) k) (tables c' k)

pub changed_same :
    (c : Bytes) (f : (Bytes → Option Bytes) → Bytes → Option Bytes)
    (tables : Bytes → Bytes → Option Bytes)
    → ((k : Bytes) → tables c k ≡ f (tables c) k)
    → (c' k : Bytes) → tables c' k ≡ changed c f tables c' k
changed_same c f tables h c' k = go (Bytes-discrete c' c)
  where
    go : (d : Dec (c' ≡ c)) → tables c' k ≡ ite d (f (tables c) k) (tables c' k)
    go (yes e) = rw e (h k)
    go (no n) = refl

pub changed_self :
    (c : Bytes) (f : (Bytes → Option Bytes) → Bytes → Option Bytes)
    (tables : Bytes → Bytes → Option Bytes) (k : Bytes)
    → changed c f tables c k ≡ f (tables c) k
changed_self c f tables k = if_pos (Bytes-discrete c c) refl _ _

pub stored-same :
    (es : List Entry) (t u : Bytes → Option Bytes)
    → ((j : Bytes) → t j ≡ u j)
    → (k : Bytes) → stored es t k ≡ stored es u k
stored-same [] t u h k = h k
stored-same (e ∷ es) t u h k =
    stored-same es _ _ (λ j. ap (λ o. ite (Bytes-discrete j e.key) (some e.value) o) (h j)) k

pub removed-same :
    (ks : List Bytes) (t u : Bytes → Option Bytes)
    → ((j : Bytes) → t j ≡ u j)
    → (k : Bytes) → removed ks t k ≡ removed ks u k
removed-same [] t u h k = h k
removed-same (i ∷ ks) t u h k =
    removed-same ks _ _ (λ j. ap (λ o. ite (Bytes-discrete j i) none o) (h j)) k

-- two changes of one table are one
pub changed_twice :
    (k : Bytes) (f g : (Bytes → Option Bytes) → Bytes → Option Bytes)
    (t u w : (Bytes → Bytes → Option Bytes))
    → ((a b : Bytes → Option Bytes) → ((j : Bytes) → a j ≡ b j) → (i : Bytes) → g a i ≡ g b i)
    → ((j i : Bytes) → u j i ≡ changed k f t j i)
    → ((j i : Bytes) → w j i ≡ changed k g u j i)
    → (j i : Bytes) → w j i ≡ changed k (λ a. g (f a)) t j i
changed_twice k f g t u w same hu hw j i = hw j i ∙ go (Bytes-discrete j k) (hu j i)
  where
    at : (l : Bytes) → u k l ≡ f (t k) l
    at l = hu k l ∙ changed_self k f t l

    go :
        (d : Dec (j ≡ k))
        → u j i ≡ ite d (f (t k) i) (t j i)
        → ite d (g (u k) i) (u j i) ≡ ite d (g (f (t k)) i) (t j i)
    go (yes e) h = same (u k) (f (t k)) at i
    go (no n) h = h

-- A storage that works as a table of tables, `view`, while `Good` holds.
pub record IsTable {S : Type 0} (Good : S → Type 0) (view : S → Bytes → Bytes → Option Bytes)
    (d : DataStorage S) : Type 0 where
  pub put_stores :
      (c : Bytes) (es : List Entry) (s : S)
      → Good s
      → (s' : S) × (d.put c es s ≡ (ok tt, s'))
        × Good s'
        × ((c' k : Bytes) → view s' c' k ≡ changed c (stored es) (view s) c' k)
  pub delete_removes :
      (c : Bytes) (ks : List Bytes) (s : S)
      → Good s
      → (s' : S) × (d.delete c ks s ≡ (ok tt, s'))
        × Good s'
        × ((c' k : Bytes) → view s' c' k ≡ changed c (removed ks) (view s) c' k)
  pub contains_reads :
      (c k : Bytes) (s : S) → Good s → d.contains c k s ≡ (ok (is_some (view s c k)), s)
  pub load_reads : (c k : Bytes) (s : S) → Good s → d.load c k s ≡ (ok (view s c k), s)
