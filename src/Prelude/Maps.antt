-- ===== src/Prelude/Maps.antt =====
-- Go maps as association lists with at most one entry for each key. Where the program ranges over a
-- map, the order is a parameter of the model.
use mathlib.Core.Path.{◌≡◌, refl}
use mathlib.Core.Bool.{Bool, true, false, ◌||◌}
use mathlib.Core.List.{List, [], ◌∷◌, ◌++◌}
use mathlib.Core.Option.{Option, none, some}
use native.Mathlib.Omega.{arith}
use mathlib.Core.Path.{subst}
use mathlib.Core.Logic.{inl, inr}
use noted_runner.Prelude.Lists.{All}
use noted_runner.Prelude.Tests.{if◌then◌else◌, Bool-cases}
use noted_runner.Prelude.Bytes.{Text, text_eq, text_eq_iff, text_eq→eq}

module _ {ℓ} {V : Type ℓ} where
  -- `v, ok := m[k]`
  unfoldable pub lookup : Text → List (Text × V) → Option V
  lookup k [] = none
  lookup k ((j, v) ∷ m) = if text_eq j k then some v else lookup k m

  -- `m[k] = v`
  unfoldable pub insert : Text → V → List (Text × V) → List (Text × V)
  insert k v [] = (k, v) ∷ []
  insert k v ((j, w) ∷ m) = if text_eq j k then (k, v) ∷ m else (j, w) ∷ insert k v m

  -- `delete(m, k)`
  unfoldable pub delete : Text → List (Text × V) → List (Text × V)
  delete k [] = []
  delete k ((j, w) ∷ m) = let rest = delete k m in if text_eq j k then rest else (j, w) ∷ rest

  pub lookup-insert :
      (k j : Text) (v : V) (m : List (Text × V))
      → lookup j (insert k v m) ≡ (if text_eq k j then some v else lookup j m)
  unfolding lookup insert
  lookup-insert k j v [] = refl
  lookup-insert k j v ((i, w) ∷ m) =
      ground (arith, text_eq_iff k j, text_eq_iff i k, text_eq_iff i j, lookup-insert k j v m)

  pub lookup-delete :
      (k j : Text) (m : List (Text × V))
      → lookup j (delete k m) ≡ (if text_eq k j then none else lookup j m)
  unfolding lookup delete
  lookup-delete k j [] = ground arith
  lookup-delete k j ((i, w) ∷ m) =
      ground (arith, text_eq_iff k j, text_eq_iff i k, text_eq_iff i j, lookup-delete k j m)

-- `m[k]` of a map of strings: the zero value where the key is missing
abbrev pub lookup_or_nil : Text → List (Text × Text) → Text
lookup_or_nil k m = elim (lookup k m) [ none ↦ [] | some v ↦ v ]

-- `_, ok := m[k]`
unfoldable pub has_key {ℓ} : {V : Type ℓ} → Text → List (Text × V) → Bool
unfolding lookup
has_key k m = elim (lookup k m) [ none ↦ false | some v ↦ true ]

-- membership in a slice or a set of strings
unfoldable pub contains : Text → List Text → Bool
contains a [] = false
contains a (x ∷ xs) = text_eq x a || contains a xs

pub contains-concat :
    (x y : Text) (xs : List Text) → contains x (xs ++ y ∷ []) ≡ (contains x xs || text_eq y x)
unfolding contains
contains-concat x y [] = ground arith
contains-concat x y (z ∷ xs) = ground (arith, contains-concat x y xs)

-- What holds of every member holds of a text that is found.
pub contains-All {κ} :
    (P : Text → Type κ) (a : Text) (xs : List Text) → All P xs → contains a xs ≡ true → P a
unfolding contains
contains-All P a [] h c = cc
contains-All P a (x ∷ xs) (p, h) c = elim (Bool-cases (text_eq x a)) [
  | inl same ↦ subst P (text_eq→eq x a same) p
  | inr differs ↦ contains-All P a xs h (rw differs at c)
]
