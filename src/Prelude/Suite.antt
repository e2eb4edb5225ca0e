-- ===== src/Prelude/Suite.antt =====
-- A unit test of the contracts: calls that may panic, and assertions.
use sequential_near.Prelude.Tests.{Key, ◌==◌}
use sequential_near.Prelude.Outcome.{Result, ok, err, require}
use mathlib.Core.Bool.{Bool, not}

-- Why a test stops early: a contract panics, or an assertion does not hold.
pub data Fault (E : Type 0) : Type 0 where
  panicked : E → Fault E
  asserted : Fault E

-- What a test comes to.
abbrev pub Verdict : Type 0 → Type 0
Verdict E = Result (Fault E) (Unit {0})

-- A call of a contract.
abbrev pub call : {E A : Type 0} → Result E A → Result (Fault E) A
call (ok a) = ok a
call (err e) = err (panicked e)

-- `assert!`
abbrev pub assert : {E : Type 0} → Bool → Verdict E
assert t = require t asserted

-- `assert_eq!` and `assert_ne!`
abbrev pub assert_eq : {E A : Type 0} ⦃key : Key A⦄ → A → A → Verdict E
assert_eq a b = assert (a == b)

abbrev pub assert_ne : {E A : Type 0} ⦃key : Key A⦄ → A → A → Verdict E
assert_ne a b = assert (not (a == b))
