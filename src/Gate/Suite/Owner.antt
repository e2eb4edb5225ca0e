-- ===== src/Gate/Suite/Owner.antt =====
-- The unit tests of contracts/gate/src/lib.rs on the owner's calls, which the model passes.
use sequential_near.Prelude.{
  ◌≡◌, refl, [], ◌∷◌, not, ok, err, ◌>>=◌, ◌>>◌, text_key, nat_key, text_eq,
}
use sequential_near.Prelude.Map.{lookup, insert, remove, contains_key}
use sequential_near.Prelude.Suite.{Verdict, panicked, assert, assert_eq}
use sequential_near.Gate.Suite.{owner, approver, relayer, alice, with_ctx, run}
use sequential_near.Gate.State.{Gate, Panic, new, assert_owner, not_owner}
use sequential_near.Host.{AccountId}
use sequential_near.Gate.Admin
use sequential_near.Gate.Views.{get_owner, get_approver, is_relayer, stats, get_batch_tail}

init_stores_owner_and_approver : Verdict Panic
init_stores_owner_and_approver = do
  let gate = new owner approver
  assert_eq (get_owner gate) owner
  assert_eq (get_approver gate) approver
  assert_eq (stats gate).0 0
  assert_eq (stats gate).4 0

add_relayer_requires_owner : Verdict Panic
add_relayer_requires_owner = do
  let gate = new owner approver
  gate ← run (Admin.add_relayer (with_ctx alice 101) relayer gate)
  ok tt

add_and_remove_relayer_round_trip : Verdict Panic
add_and_remove_relayer_round_trip = do
  let gate = new owner approver
  gate ← run (Admin.add_relayer (with_ctx owner 101) relayer gate)
  assert (is_relayer relayer gate)
  gate ← run (Admin.remove_relayer (with_ctx owner 102) relayer gate)
  assert (not (is_relayer relayer gate))

set_approver_updates : Verdict Panic
set_approver_updates = do
  let gate = new owner approver
  let new_approver : AccountId =
      b'a' ∷ b'p' ∷ b'p' ∷ b'r' ∷ b'o' ∷ b'v' ∷ b'e' ∷ b'r' ∷ b'2' ∷ b'.' ∷ b't' ∷ b'e' ∷ b's'
      ∷ b't' ∷ []
  gate ← run (Admin.set_approver (with_ctx owner 101) new_approver gate)
  assert_eq (get_approver gate) new_approver

reset_batch_tail_clears_state : Verdict Panic
reset_batch_tail_clears_state = do
  let gate = new owner approver
  let gate : Gate = record gate { batch_chain_tail = 7 ∷ 8 ∷ 9 ∷ [] }
  gate ← run (Admin.reset_batch_tail (with_ctx owner 101) gate)
  assert_eq (get_batch_tail gate) []

reset_batch_tail_rejects_non_owner : Verdict Panic
reset_batch_tail_rejects_non_owner = do
  let gate = new owner approver
  gate ← run (Admin.reset_batch_tail (with_ctx approver 101) gate)
  ok tt

get_batch_tail_roundtrips : Verdict Panic
get_batch_tail_roundtrips = do
  let gate = new owner approver
  let gate : Gate = record gate { batch_chain_tail = 10 ∷ 20 ∷ 30 ∷ [] }
  assert_eq (get_batch_tail gate) (10 ∷ 20 ∷ 30 ∷ [])

init_stores_owner_and_approver_lem : init_stores_owner_and_approver ≡ ok tt
unfolding init_stores_owner_and_approver new text_eq
init_stores_owner_and_approver_lem = refl

add_relayer_requires_owner_lem : add_relayer_requires_owner ≡ err (panicked not_owner)
unfolding add_relayer_requires_owner new text_eq assert_owner Admin.add_relayer
add_relayer_requires_owner_lem = refl

add_and_remove_relayer_round_trip_lem : add_and_remove_relayer_round_trip ≡ ok tt
unfolding add_and_remove_relayer_round_trip new text_eq assert_owner Admin.add_relayer
    Admin.remove_relayer insert remove lookup contains_key
add_and_remove_relayer_round_trip_lem = refl

set_approver_updates_lem : set_approver_updates ≡ ok tt
unfolding set_approver_updates new text_eq assert_owner Admin.set_approver
set_approver_updates_lem = refl

reset_batch_tail_clears_state_lem : reset_batch_tail_clears_state ≡ ok tt
unfolding reset_batch_tail_clears_state new text_eq assert_owner Admin.reset_batch_tail
reset_batch_tail_clears_state_lem = refl

reset_batch_tail_rejects_non_owner_lem :
    reset_batch_tail_rejects_non_owner ≡ err (panicked not_owner)
unfolding reset_batch_tail_rejects_non_owner new text_eq assert_owner Admin.reset_batch_tail
reset_batch_tail_rejects_non_owner_lem = refl

get_batch_tail_roundtrips_lem : get_batch_tail_roundtrips ≡ ok tt
unfolding get_batch_tail_roundtrips new text_eq
get_batch_tail_roundtrips_lem = refl
