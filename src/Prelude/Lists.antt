-- ===== src/Prelude/Lists.antt =====
-- Lists over the native numbers, and a predicate on every element.
use Prim.Native.Nat.{ℕ, suc, ◌+◌}
use mathlib.Core.Path.{◌≡◌, refl, sym, subst}
use mathlib.Core.Logic.{◌≢◌, ◌⊎◌, inl, inr}
use mathlib.Core.Option.{Option, none, some}
use mathlib.Core.List.{List, [], ◌∷◌, ◌++◌}
use native.Mathlib.Omega.{arith}

module _ {ℓ} {A : Type ℓ} where
  abbrev pub length : List A → ℕ
  length [] = 0
  length (x ∷ xs) = suc (length xs)

  -- Rust's `first().copied()`.
  abbrev pub first : List A → Option A
  first [] = none
  first (x ∷ xs) = some x

  pub length-append : (xs ys : List A) → length (xs ++ ys) ≡ length xs + length ys
  length-append [] ys = omega arith
  length-append (x ∷ xs) ys = omega (arith, length-append xs ys)

abbrev pub All {ℓ κ} : {A : Type ℓ} → (A → Type κ) → List A → Type κ
All P [] = Unit
All P (x ∷ xs) = P x × All P xs

pub All-append {ℓ κ} :
    {A : Type ℓ} (Q : A → Type κ) (front back : List A)
    → All Q front
    → All Q back
    → All Q (front ++ back)
All-append Q (a ∷ front) back (qa, qs) qb = (qa, All-append Q front back qs qb)
All-append Q [] back qs qb = qb

-- The value stands in the list.
abbrev pub Holds : {A : Type 0} → A → List A → Type 0
Holds a [] = ⊥
Holds a (x ∷ xs) = (a ≡ x) ⊎ Holds a xs

-- No value stands twice in the list.
abbrev pub IsDistinct {ℓ} : {A : Type ℓ} → List A → Type ℓ
IsDistinct [] = Unit
IsDistinct (x ∷ xs) = All (λ other. x ≢ other) xs × IsDistinct xs

-- One element taken out of the middle.
pub All-middle {ℓ κ} :
    {A : Type ℓ} (Q : A → Type κ) (front back : List A) {x : A}
    → All Q (front ++ x ∷ back)
    → Q x × All Q (front ++ back)
All-middle Q [] back h = h
All-middle Q (a ∷ front) back h = let (q, rest) = All-middle Q front back h.1 in (q, (h.0, rest))

pub All-map {ℓ κ ι} :
    {A : Type ℓ} (P : A → Type κ) (Q : A → Type ι) (xs : List A)
    → ((a : A) → P a → Q a)
    → All P xs
    → All Q xs
All-map P Q [] f h = tt
All-map P Q (x ∷ xs) f h = (f x h.0, All-map P Q xs f h.1)

pub Holds-append_left : {A : Type 0} (a : A) (xs ys : List A) → Holds a xs → Holds a (xs ++ ys)
Holds-append_left a [] ys h = absurd h
Holds-append_left a (x ∷ xs) ys (inl e) = inl e
Holds-append_left a (x ∷ xs) ys (inr h) = inr (Holds-append_left a xs ys h)

pub Holds-append_right : {A : Type 0} (a : A) (xs ys : List A) → Holds a ys → Holds a (xs ++ ys)
Holds-append_right a [] ys h = h
Holds-append_right a (x ∷ xs) ys h = inr (Holds-append_right a xs ys h)

-- The elements of a list stand in it.
pub All-Holds : {A : Type 0} (xs : List A) → All (λ x. Holds x xs) xs
All-Holds [] = tt
All-Holds (x ∷ xs) =
    (inl refl, All-map (λ y. Holds y xs) (λ y. Holds y (x ∷ xs)) xs (λ y h. inr h) (All-Holds xs))

-- A sum over the elements.
abbrev pub total {ℓ} : {A : Type ℓ} → (A → ℕ) → List A → ℕ
total f [] = 0
total f (x ∷ xs) = f x + total f xs

pub total-middle {ℓ} :
    {A : Type ℓ} (f : A → ℕ) (front back : List A) (x : A)
    → total f (front ++ x ∷ back) ≡ f x + total f (front ++ back)
total-middle f [] back x = omega arith
total-middle f (a ∷ front) back x = omega (arith, total-middle f front back x)

pub All-lookup {κ} :
    {A : Type 0} (Q : A → Type κ) (xs : List A) {a : A} → All Q xs → Holds a xs → Q a
All-lookup Q [] qs h = absurd h
All-lookup Q (x ∷ xs) qs (inl e) = subst Q (sym e) qs.0
All-lookup Q (x ∷ xs) qs (inr h) = All-lookup Q xs qs.1 h

pub Holds-middle :
    {A : Type 0} (a x : A) (front back : List A)
    → Holds a (front ++ x ∷ back)
    → (a ≡ x) ⊎ Holds a (front ++ back)
Holds-middle a x [] back h = h
Holds-middle a x (y ∷ front) back (inl e) = inr (inl e)
Holds-middle a x (y ∷ front) back (inr h) = elim (Holds-middle a x front back h) [
  | inl e ↦ inl e
  | inr later ↦ inr (inr later)
]
