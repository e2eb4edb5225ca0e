-- ===== src/Gate/Suite/Batches.antt =====
-- The unit tests of contracts/gate/src/lib.rs on the resume paths that need no submission, which the
-- model passes.
use sequential_near.Prelude.{◌≡◌, refl, true, [], ◌∷◌, ok, err, ◌>>=◌, text_key, nat_key, text_eq}
use sequential_near.Prelude.Map.{lookup, insert, contains_key}
use sequential_near.Prelude.Suite.{Verdict, panicked}
use sequential_near.Gate.Suite.{
  owner, approver, alice, with_ctx, with_ctx_paid, with_ctx_private, tier1_yocto, tier3_yocto, run,
  init_with_relayer,
}
use sequential_near.Gate.State.{
  Gate, Panic, new, assert_owner, assert_private, not_approver, empty_batch, unknown_intent,
  tail_mismatch, batch_too_big,
}
use sequential_near.Gate.Admin
use sequential_near.Gate.Fees.{fee_for, find_tier, charge_fee}
use sequential_near.Gate.Chain.{
  resume_intent, resume_batch_chained, continue_chain, start_batch, check_pending, resume_pending,
}
use sequential_near.Gate.Tests.{json}

resume_rejects_non_approver : Verdict Panic
resume_rejects_non_approver = do
  gate ← init_with_relayer
  gate ← run (resume_intent json (with_ctx alice 110) 0 true gate)
  ok tt

resume_rejects_unknown_id : Verdict Panic
resume_rejects_unknown_id = do
  gate ← init_with_relayer
  gate ← run (resume_intent json (with_ctx_paid approver 110 tier1_yocto) 999 true gate)
  ok tt

batch_rejects_non_approver : Verdict Panic
batch_rejects_non_approver = do
  gate ← init_with_relayer
  gate ← run (resume_batch_chained json (with_ctx alice 110) (0 ∷ []) gate)
  ok tt

batch_rejects_empty : Verdict Panic
batch_rejects_empty = do
  gate ← init_with_relayer
  gate ← run (resume_batch_chained json (with_ctx approver 110) [] gate)
  ok tt

batch_rejects_unknown_first_id : Verdict Panic
batch_rejects_unknown_first_id = do
  gate ← init_with_relayer
  gate ← run (resume_batch_chained json (with_ctx_paid approver 110 tier1_yocto) (999 ∷ []) gate)
  ok tt

batch_of_thirteen_rejected_before_state_mutation : Verdict Panic
batch_of_thirteen_rejected_before_state_mutation = do
  gate ← init_with_relayer
  gate ← run (
      resume_batch_chained json (with_ctx_paid approver 110 tier3_yocto)
        (0 ∷ 1 ∷ 2 ∷ 3 ∷ 4 ∷ 5 ∷ 6 ∷ 7 ∷ 8 ∷ 9 ∷ 10 ∷ 11 ∷ 12 ∷ []) gate)
  ok tt

continue_chain_detects_tail_mismatch : Verdict Panic
continue_chain_detects_tail_mismatch = do
  let gate = new owner approver
  let gate : Gate = record gate { batch_chain_tail = 3 ∷ 4 ∷ [] }
  gate ← run (continue_chain json (with_ctx_private 102) 99 1 gate)
  ok tt

resume_rejects_non_approver_lem : resume_rejects_non_approver ≡ err (panicked not_approver)
unfolding resume_rejects_non_approver new text_eq assert_owner Admin.add_relayer insert lookup
    resume_intent
resume_rejects_non_approver_lem = refl

resume_rejects_unknown_id_lem : resume_rejects_unknown_id ≡ err (panicked (unknown_intent 999))
unfolding resume_rejects_unknown_id new text_eq assert_owner Admin.add_relayer insert lookup
    resume_intent charge_fee fee_for find_tier resume_pending
resume_rejects_unknown_id_lem = refl

batch_rejects_non_approver_lem : batch_rejects_non_approver ≡ err (panicked not_approver)
unfolding batch_rejects_non_approver new text_eq assert_owner Admin.add_relayer insert lookup
    resume_batch_chained
batch_rejects_non_approver_lem = refl

batch_rejects_empty_lem : batch_rejects_empty ≡ err (panicked empty_batch)
unfolding batch_rejects_empty new text_eq assert_owner Admin.add_relayer insert lookup
    resume_batch_chained
batch_rejects_empty_lem = refl

batch_rejects_unknown_first_id_lem :
    batch_rejects_unknown_first_id ≡ err (panicked (unknown_intent 999))
unfolding batch_rejects_unknown_first_id new text_eq assert_owner Admin.add_relayer insert lookup
    resume_batch_chained charge_fee fee_for find_tier start_batch check_pending contains_key
batch_rejects_unknown_first_id_lem = refl

batch_of_thirteen_rejected_before_state_mutation_lem :
    batch_of_thirteen_rejected_before_state_mutation ≡ err (panicked (batch_too_big 13 12))
unfolding batch_of_thirteen_rejected_before_state_mutation new text_eq assert_owner
    Admin.add_relayer insert lookup resume_batch_chained charge_fee fee_for find_tier
batch_of_thirteen_rejected_before_state_mutation_lem = refl

continue_chain_detects_tail_mismatch_lem :
    continue_chain_detects_tail_mismatch ≡ err (panicked tail_mismatch)
unfolding continue_chain_detects_tail_mismatch new text_eq assert_private continue_chain
continue_chain_detects_tail_mismatch_lem = refl
