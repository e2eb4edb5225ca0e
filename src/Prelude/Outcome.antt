-- ===== src/Prelude/Outcome.antt =====
-- A contract call's outcome: it returns, or it panics and the runtime drops every change it made.
use mathlib.Core.Path.{◌≡◌, refl, subst}
use mathlib.Core.Logic.{◌⊎◌, inl, inr}
use mathlib.Core.Bool.{Bool, true, false}
use mathlib.Core.Option.{Option, none, some}

pub data Result {ℓ κ} (E : Type κ) (A : Type ℓ) : Type (ℓ ⊔ κ) where
  ok : A → Result E A
  err : E → Result E A

infixl 5 ◌>>=◌ ◌>>◌
abbrev pub ◌>>=◌ {ℓ κ ι} :
    {E : Type ι} {A : Type ℓ} {B : Type κ} → Result E A → (A → Result E B) → Result E B
ok a >>= f = f a
err e >>= f = err e

abbrev pub ◌>>◌ {ℓ ι} : {E : Type ι} {B : Type ℓ} → Result E (Unit {0}) → Result E B → Result E B
m >> k = m >>= λ _. k

-- `require!(test, message)`
abbrev pub require {ι} : {E : Type ι} → Bool → E → Result E (Unit {0})
require true e = ok tt
require false e = err e

-- `option.unwrap_or_else(|| panic(message))`
abbrev pub or_panic {ℓ ι} : {E : Type ι} {A : Type ℓ} → Option A → E → Result E A
or_panic none e = err e
or_panic (some a) e = ok a

pub Result-cases {ℓ ι} :
    {E : Type ι} {A : Type ℓ} (r : Result E A) → ((a : A) × (r ≡ ok a)) ⊎ ((e : E) × (r ≡ err e))
Result-cases (ok a) = inl (a, refl)
Result-cases (err e) = inr (e, refl)

-- Inversion of a successful bind, for proofs where the parts stay shut.
pub >>=-eq-ok {ℓ κ ι} :
    {E : Type ι} {A : Type ℓ} {B : Type κ} (r : Result E A) (next : A → Result E B) {out : B}
    → (r >>= next) ≡ ok out
    → (x : A) × (r ≡ ok x) × (next x ≡ ok out)
>>=-eq-ok (err e) next h = cc
>>=-eq-ok (ok x) next h = (x, refl, h)

pub require-eq-ok {ℓ ι} :
    {E : Type ι} {B : Type ℓ} (t : Bool) (e : E) (k : Result E B) {b : B}
    → (require t e >> k) ≡ ok b
    → (t ≡ true) × (k ≡ ok b)
require-eq-ok true e k h = (refl, h)
require-eq-ok false e k h = cc

-- What holds of a value holds of any other that the same outcome is made of.
pub of_ok_eq {ℓ κ ι} :
    {E : Type ι} {A : Type ℓ} (Q : A → Type κ) {x y : A}
    → ◌≡◌ {A = Result E A} (ok x) (ok y)
    → Q x
    → Q y
of_ok_eq Q e q = subst Q (cc e) q

pub or_panic-eq-ok {ℓ ι} :
    {E : Type ι} {A : Type ℓ} (o : Option A) (e : E) {a : A} → or_panic o e ≡ ok a → o ≡ some a
or_panic-eq-ok none e h = cc
or_panic-eq-ok (some a) e h = cc

-- Inversion of a panic: at this test or behind it.
pub or_panic-eq-err {ℓ κ ι} :
    {E : Type ι} {A : Type ℓ} {B : Type κ} (o : Option A) (e : E) (next : A → Result E B) {out : E}
    → (or_panic o e >>= next) ≡ err out
    → ((o ≡ none) × (e ≡ out)) ⊎ ((a : A) × (o ≡ some a) × (next a ≡ err out))
or_panic-eq-err none e next h = inl (refl, cc h)
or_panic-eq-err (some a) e next h = inr (a, refl, h)

pub require-eq-err {ℓ ι} :
    {E : Type ι} {B : Type ℓ} (t : Bool) (e : E) (k : Result E B) {out : E}
    → (require t e >> k) ≡ err out
    → ((t ≡ false) × (e ≡ out)) ⊎ ((t ≡ true) × (k ≡ err out))
require-eq-err true e k h = inr (refl, h)
require-eq-err false e k h = inl (refl, cc h)

pub >>=-eq-err {ℓ κ ι} :
    {E : Type ι} {A : Type ℓ} {B : Type κ} (r : Result E A) (next : A → Result E B) {out : E}
    → (r >>= next) ≡ err out
    → (r ≡ err out) ⊎ ((a : A) × (r ≡ ok a) × (next a ≡ err out))
>>=-eq-err (err e) next h = inl (cc h)
>>=-eq-err (ok x) next h = inr (x, refl, h)

pub ok-≢-err {ℓ ι} :
    {E : Type ι} {A : Type ℓ} {a : A} {e : E} → ◌≡◌ {A = Result E A} (ok a) (err e) → ⊥
ok-≢-err h = cc h
