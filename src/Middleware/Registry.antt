-- ===== src/Middleware/Registry.antt =====
-- middleware/middleware.go: the registry of builders, and what is built by a list of named configurations. A
-- builder, with the storage that it is given, takes a configuration.
use mochi.Base.{
  ◌≡◌, ◌≢◌, refl, ap, ◌∙◌, false, Option, none, some, List, [], ◌∷◌, ◌++◌, arith, ◌==◌,
  if◌then◌else◌, length, if_pos, if_neg,
}
use mochi.Base.Bytes.{Bytes, Bytes-discrete}
use mochi.Base.Map
use mochi.Base.Map.{Map, get-insert}
use mochi.Result.{Error, other_error, Result, ok, err, panic}

-- The text of the source also has the name.
abbrev pub err_no_builder : Error
err_no_builder = other_error "hook with that name does not exists"

-- the loop goes on, and puts what is built before
abbrev pub put_first :
    {A : Type 0} → A → Result (List A × Option Error) → Result (List A × Option Error)
put_first a (ok (xs, e)) = ok (a ∷ xs, e)
put_first a (err e) = err e
put_first a panic = panic

abbrev pub started_one :
    {A : Type 0} → Result A → Result (List A × Option Error) → Result (List A × Option Error)
started_one (ok a) rest = put_first a rest
started_one (err e) rest = ok ([], some e)
started_one panic rest = panic

module _ {C A : Type 0} where
  -- RegisterBuilder; a nil builder is none
  unfoldable pub register_builder :
      Bytes → Option (C → Result A) → Map Bytes (C → Result A) → Result (Map Bytes (C → Result A))
  register_builder name none builders = panic
  register_builder name (some b) builders =
      if length name == 0
      then panic
      else if Map.contains Bytes-discrete name builders
      then panic
      else ok (Map.insert Bytes-discrete name b builders)

  -- what a name and a configuration build
  abbrev pub build_with : Option (C → Result A) → C → Result A
  build_with none config = err err_no_builder
  build_with (some b) config = b config

  abbrev pub built : Map Bytes (C → Result A) → Bytes → C → Result A
  built builders name config = build_with (Map.get Bytes-discrete name builders) config

  -- NewHooks: what is started, and the error that ended it
  unfoldable pub new_all :
      Map Bytes (C → Result A) → List (Bytes × C) → Result (List A × Option Error)
  new_all builders [] = ok ([], none)
  new_all builders ((name, config) ∷ cs) =
      started_one (built builders name config) (new_all builders cs)

  -- Every configuration is built, in order.
  abbrev pub AreBuilt : Map Bytes (C → Result A) → List (Bytes × C) → List A → Type 0
  AreBuilt builders [] [] = Unit
  AreBuilt builders (c ∷ cs) (a ∷ xs) = (built builders c.0 c.1 ≡ ok a) × AreBuilt builders cs xs
  AreBuilt builders [] (a ∷ xs) = ⊥
  AreBuilt builders (c ∷ cs) [] = ⊥

  new_all-built :
      (builders : Map Bytes (C → Result A)) (cs : List (Bytes × C)) (xs : List A)
      → AreBuilt builders cs xs
      → new_all builders cs ≡ ok (xs, none)
  unfolding new_all
  new_all-built builders [] [] h = refl
  new_all-built builders (c ∷ cs) (a ∷ xs) h = rw (h.0, new_all-built builders cs xs h.1) refl
  new_all-built builders [] (a ∷ xs) h = absurd h
  new_all-built builders (c ∷ cs) [] h = absurd h

  -- The first configuration that fails ends the start of hooks, with those before it started, and its error.
  pub new_all-fails :
      (builders : Map Bytes (C → Result A)) (before : List (Bytes × C)) (xs : List A) (name : Bytes)
      (config : C) (behind : List (Bytes × C)) (e : Error)
      → AreBuilt builders before xs
      → built builders name config ≡ err e
      → new_all builders (before ++ (name, config) ∷ behind) ≡ ok (xs, some e)
  unfolding new_all
  new_all-fails builders [] [] name config behind e h q = rw q refl
  new_all-fails builders (c ∷ cs) (a ∷ xs) name config behind e h q =
      rw (h.0, new_all-fails builders cs xs name config behind e h.1 q) refl
  new_all-fails builders [] (a ∷ xs) name config behind e h q = absurd h
  new_all-fails builders (c ∷ cs) [] name config behind e h q = absurd h

  -- A builder that is registered under a new name builds the configurations of that name, and every other name
  -- builds as before.
  pub register_builder-built :
      (name : Bytes) (b : C → Result A) (builders : Map Bytes (C → Result A))
      → name ≢ []
      → Map.get Bytes-discrete name builders ≡ none
      → (builders' : Map Bytes (C → Result A)) × (register_builder name (some b) builders
          ≡ ok builders')
        × ((config : C) → built builders' name config ≡ b config)
        × ((name' : Bytes) (config : C)
            → name' ≢ name
            → built builders' name' config ≡ built builders name' config)
  unfolding register_builder
  register_builder-built name b builders n fresh = (
    Map.insert Bytes-discrete name b builders,
    rw (not_empty name n, fresh) refl,
    λ config.
        ap (λ o. build_with o config)
          (get-insert Bytes-discrete name name b builders
            ∙ if_pos (Bytes-discrete name name) refl _ _),
    λ name' config m.
        ap (λ o. build_with o config)
          (get-insert Bytes-discrete name' name b builders
            ∙ if_neg (Bytes-discrete name' name) m _ _),
  )
    where
      not_empty : (xs : Bytes) → xs ≢ [] → (length xs == 0) ≡ false
      not_empty [] h = absurd (h refl)
      not_empty (x ∷ xs) h = ground arith
