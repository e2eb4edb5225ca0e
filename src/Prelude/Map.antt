-- ===== src/Prelude/Map.antt =====
-- The contracts' storage maps and sets as association lists: `LookupMap`, `IterableMap`, `LookupSet`.
-- Only what a lookup returns is read by the contracts, except for the keys of `IterableMap`.
use sequential_near.Prelude.Tests.{Key, ◌==◌, if◌then◌else◌}
use mathlib.Core.Path.{◌≡◌, refl}
use mathlib.Core.Bool.{Bool, true, false}
use mathlib.Core.Option.{Option, none, some}
use mathlib.Core.List.{List, [], ◌∷◌}
use native.Mathlib.Omega.{arith}

abbrev pub Map {ℓ κ} : Type ℓ → Type κ → Type (ℓ ⊔ κ)
Map K V = List (K × V)

module _ {ℓ κ} {K : Type ℓ} {V : Type κ} where
  unfoldable pub keys : Map K V → List K
  keys [] = []
  keys ((k, v) ∷ m) = k ∷ keys m

module _ {ℓ κ} {K : Type ℓ} ⦃e : Key K⦄ {V : Type κ} where
  unfoldable pub lookup : K → Map K V → Option V
  lookup key [] = none
  lookup key ((other, val) ∷ rest) = if other == key then some val else lookup key rest

  unfoldable pub contains_key : K → Map K V → Bool
  contains_key key rest = elim (lookup key rest) [ none ↦ false | some _ ↦ true ]

  unfoldable pub insert : K → V → Map K V → Map K V
  insert key val [] = (key, val) ∷ []
  insert key val ((other, old) ∷ rest) =
      if other == key then (key, val) ∷ rest else (other, old) ∷ insert key val rest

  unfoldable pub remove : K → Map K V → Map K V
  remove key [] = []
  remove key ((other, old) ∷ rest) =
      if other == key then remove key rest else (other, old) ∷ remove key rest

  pub lookup-insert :
      (key other : K) (val : V) (rest : Map K V)
      → lookup other (insert key val rest) ≡ (if key == other then some val else lookup other rest)
  unfolding lookup insert
  lookup-insert key other val [] = refl
  lookup-insert key other val ((i, old) ∷ rest) = ground (
    arith,
    e.same_iff key other,
    e.same_iff i key,
    e.same_iff i other,
    lookup-insert key other val rest,
  )

  pub lookup-remove :
      (key other : K) (rest : Map K V)
      → lookup other (remove key rest) ≡ (if key == other then none else lookup other rest)
  unfolding lookup remove
  lookup-remove key other [] = ground arith
  lookup-remove key other ((i, old) ∷ rest) = ground (
    arith,
    e.same_iff key other,
    e.same_iff i key,
    e.same_iff i other,
    lookup-remove key other rest,
  )
