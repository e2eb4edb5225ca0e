-- ===== src/Register/Suite.antt =====
-- The unit tests of contracts/register/src/lib.rs, which the model passes.
use sequential_near.Prelude.{
  ◌≡◌, refl, [], ◌∷◌, ok, ◌>>=◌, ◌>>◌, text_key, nat_key, text_eq, not, ◌||◌, ◌==◌,
}
use sequential_near.Prelude.Suite.{Verdict, call, assert, assert_eq}
use sequential_near.Register.{Panic, default, set, get, reset}

default_state_is_empty : Verdict Panic
default_state_is_empty = do
  let r = default
  let (current, log, count) = get r
  assert_eq current 0
  assert_eq log []
  assert_eq count 0

set_updates_current_and_appends_log : Verdict Panic
set_updates_current_and_appends_log = do
  let r = default
  r ← call (set 11 r)
  r ← call (set 22 r)
  r ← call (set 33 r)
  let (current, log, count) = get r
  assert_eq current 33
  assert_eq log (11 ∷ 22 ∷ 33 ∷ [])
  assert_eq count 3

set_is_non_commutative_in_final_state : Verdict Panic
set_is_non_commutative_in_final_state = do
  let a = default
  a ← call (set 11 a)
  a ← call (set 22 a)
  a ← call (set 33 a)
  let b = default
  b ← call (set 33 b)
  b ← call (set 11 b)
  b ← call (set 22 b)
  assert (
      not ((get a).0 == (get b).0)
      || (not ((get a).1 == (get b).1) || not ((get a).2 == (get b).2)))
  assert_eq (get a).0 33
  assert_eq (get b).0 22

reset_clears_all_fields : Verdict Panic
reset_clears_all_fields = do
  let r = default
  r ← call (set 11 r)
  r ← call (set 22 r)
  let r = reset r
  let (current, log, count) = get r
  assert_eq current 0
  assert_eq log []
  assert_eq count 0

default_state_is_empty_lem : default_state_is_empty ≡ ok tt
unfolding default_state_is_empty default get text_eq
default_state_is_empty_lem = refl

set_updates_current_and_appends_log_lem : set_updates_current_and_appends_log ≡ ok tt
unfolding set_updates_current_and_appends_log default set get text_eq
set_updates_current_and_appends_log_lem = refl

set_is_non_commutative_in_final_state_lem : set_is_non_commutative_in_final_state ≡ ok tt
unfolding set_is_non_commutative_in_final_state default set get text_eq
set_is_non_commutative_in_final_state_lem = refl

reset_clears_all_fields_lem : reset_clears_all_fields ≡ ok tt
unfolding reset_clears_all_fields default set get reset text_eq
reset_clears_all_fields_lem = refl
