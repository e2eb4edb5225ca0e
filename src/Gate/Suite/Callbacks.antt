-- ===== src/Gate/Suite/Callbacks.antt =====
-- The unit tests of contracts/gate/src/lib.rs that call `on_intent_resumed` directly, which the model
-- passes.
use sequential_near.Prelude.{
  ◌≡◌, refl, true, false, [], ◌∷◌, ok, err, ◌>>=◌, ◌>>◌, text_key, nat_key, text_eq,
}
use sequential_near.Prelude.Map.{remove}
use sequential_near.Prelude.Suite.{Verdict, assert_eq}
use sequential_near.Gate.Suite.{owner, approver, with_ctx_private, run, sample_callback_args}
use sequential_near.Gate.State.{Panic, new, assert_private}
use sequential_near.Gate.Callback.{on_intent_resumed, resolve, chained}
use sequential_near.Gate.Chain.Steps.{single_signal, chain_signal}
use sequential_near.Gate.Views.{stats}

on_intent_resumed_approve_increments_dispatch : Verdict Panic
on_intent_resumed_approve_increments_dispatch = do
  let gate = new owner approver
  gate ← run (
      on_intent_resumed (with_ctx_private 200) (sample_callback_args 0) (ok (single_signal true))
        gate)
  assert_eq (stats gate).1 1
  assert_eq (stats gate).2 0

on_intent_resumed_reject_increments_rejected : Verdict Panic
on_intent_resumed_reject_increments_rejected = do
  let gate = new owner approver
  gate ← run (
      on_intent_resumed (with_ctx_private 200) (sample_callback_args 0) (ok (single_signal false))
        gate)
  assert_eq (stats gate).1 0
  assert_eq (stats gate).2 1

on_intent_resumed_timeout_increments_rejected : Verdict Panic
on_intent_resumed_timeout_increments_rejected = do
  let gate = new owner approver
  gate ← run (
      on_intent_resumed (with_ctx_private 200) (sample_callback_args 0)
        (err (b'F' ∷ b'a' ∷ b'i' ∷ b'l' ∷ b'e' ∷ b'd' ∷ [])) gate)
  assert_eq (stats gate).1 0
  assert_eq (stats gate).2 1

on_intent_resumed_approve_does_not_require_pending : Verdict Panic
on_intent_resumed_approve_does_not_require_pending = do
  let gate = new owner approver
  gate ← run (
      on_intent_resumed (with_ctx_private 200) (sample_callback_args 99) (ok (chain_signal 0 []))
        gate)
  assert_eq (stats gate).1 1

on_intent_resumed_approve_increments_dispatch_lem :
    on_intent_resumed_approve_increments_dispatch ≡ ok tt
unfolding on_intent_resumed_approve_increments_dispatch new text_eq assert_private on_intent_resumed
    resolve chained remove
on_intent_resumed_approve_increments_dispatch_lem = refl

on_intent_resumed_reject_increments_rejected_lem :
    on_intent_resumed_reject_increments_rejected ≡ ok tt
unfolding on_intent_resumed_reject_increments_rejected new text_eq assert_private on_intent_resumed
    resolve chained remove
on_intent_resumed_reject_increments_rejected_lem = refl

on_intent_resumed_timeout_increments_rejected_lem :
    on_intent_resumed_timeout_increments_rejected ≡ ok tt
unfolding on_intent_resumed_timeout_increments_rejected new text_eq assert_private on_intent_resumed
    resolve chained remove
on_intent_resumed_timeout_increments_rejected_lem = refl

on_intent_resumed_approve_does_not_require_pending_lem :
    on_intent_resumed_approve_does_not_require_pending ≡ ok tt
unfolding on_intent_resumed_approve_does_not_require_pending new text_eq assert_private
    on_intent_resumed resolve chained remove
on_intent_resumed_approve_does_not_require_pending_lem = refl
