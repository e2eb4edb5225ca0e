-- ===== src/Gate/Suite/Resumes.antt =====
-- The unit tests of contracts/gate/src/lib.rs that resume submitted intents, which the model passes.
use sequential_near.Prelude.{
  ◌≡◌, refl, true, [], ◌∷◌, ok, err, ◌>>=◌, text_key, nat_key, text_eq, ◌-◌,
}
use sequential_near.Prelude.Map.{lookup, insert, remove, contains_key}
use sequential_near.Prelude.Suite.{Verdict, panicked}
use sequential_near.Gate.Suite.{
  approver, relayer, alice, target, with_ctx, with_ctx_paid, tier1_yocto, tier2_yocto, run,
  init_with_relayer,
}
use sequential_near.Gate.State.{Panic, new, assert_owner, unknown_intent, insufficient_fee}
use sequential_near.Borsh.{read_exact}
use sequential_near.Borsh.Little.{
  little, whole, le_write, le_read, read_items, is_ascii, is_account, is_account_char,
}
use sequential_near.Nep366.{
  write_delegate, read_delegate, write_action, read_action, write_function_call, read_function_call,
  write_public_key, read_public_key, write_signature, read_signature, write_signed, read_signed,
  parse_signed, signed_message, signed_message_hash, verify, require_single_function_call,
}
use sequential_near.Nep366.Suite.{crypto}
use sequential_near.Gate.Nonce.{nonce_key, decimal, digits}
use sequential_near.Gate.Admin
use sequential_near.Gate.Submit.{submit_intent, check_signed, hold_intent}
use sequential_near.Gate.Fees.{fee_for, find_tier, charge_fee}
use sequential_near.Gate.Chain.{resume_intent, resume_batch_chained, start_batch, check_pending}
use sequential_near.Gate.Tests.{json}
use sequential_near.Gate.Suite.Submissions.{sample_signed_delegate, submit_one}

batch_prevalidates_all_ids : Verdict Panic
batch_prevalidates_all_ids = do
  gate ← init_with_relayer
  gate ← run (
      submit_intent little crypto json (with_ctx relayer 110)
        (sample_signed_delegate 7 alice target 1 10000) gate)
  gate ← run (resume_batch_chained json (with_ctx_paid approver 111 tier1_yocto) (0 ∷ 42 ∷ []) gate)
  ok tt

resume_intent_rejects_zero_deposit : Verdict Panic
resume_intent_rejects_zero_deposit = do
  gate ← init_with_relayer
  gate ← submit_one 1 gate
  gate ← run (resume_intent json (with_ctx approver 111) 0 true gate)
  ok tt

resume_intent_rejects_underpayment : Verdict Panic
resume_intent_rejects_underpayment = do
  gate ← init_with_relayer
  gate ← submit_one 1 gate
  gate ← run (resume_intent json (with_ctx_paid approver 111 (tier1_yocto - 1)) 0 true gate)
  ok tt

batch_of_four_requires_tier2_fee : Verdict Panic
batch_of_four_requires_tier2_fee = do
  gate ← init_with_relayer
  gate ← submit_one 1 gate
  gate ← submit_one 2 gate
  gate ← submit_one 3 gate
  gate ← submit_one 4 gate
  gate ←
      run (
        resume_batch_chained json (with_ctx_paid approver 120 tier1_yocto) (0 ∷ 1 ∷ 2 ∷ 3 ∷ [])
          gate)
  ok tt

batch_prevalidates_all_ids_lem : batch_prevalidates_all_ids ≡ err (panicked (unknown_intent 42))
unfolding batch_prevalidates_all_ids new text_eq assert_owner Admin.add_relayer insert lookup remove
    contains_key submit_intent check_signed hold_intent nonce_key decimal digits verify
    write_delegate write_action write_function_call write_public_key write_signature write_signed
    le_write whole read_signed read_delegate read_action read_function_call read_public_key
    read_signature read_exact read_items le_read is_ascii is_account is_account_char signed_message
    signed_message_hash parse_signed require_single_function_call resume_batch_chained charge_fee
    fee_for find_tier start_batch check_pending
batch_prevalidates_all_ids_lem = refl

resume_intent_rejects_zero_deposit_lem :
    resume_intent_rejects_zero_deposit
    ≡ err (panicked (insufficient_fee 30_000_000_000_000_000_000_000 1 0))
unfolding resume_intent_rejects_zero_deposit new text_eq assert_owner Admin.add_relayer insert
    lookup remove contains_key submit_intent check_signed hold_intent nonce_key decimal digits
    verify write_delegate write_action write_function_call write_public_key write_signature
    write_signed le_write whole read_signed read_delegate read_action read_function_call
    read_public_key read_signature read_exact read_items le_read is_ascii is_account is_account_char
    signed_message signed_message_hash parse_signed require_single_function_call resume_intent
    charge_fee fee_for find_tier
resume_intent_rejects_zero_deposit_lem = refl

resume_intent_rejects_underpayment_lem :
    resume_intent_rejects_underpayment
    ≡ err (panicked (insufficient_fee tier1_yocto 1 (tier1_yocto - 1)))
unfolding resume_intent_rejects_underpayment new text_eq assert_owner Admin.add_relayer insert
    lookup remove contains_key submit_intent check_signed hold_intent nonce_key decimal digits
    verify write_delegate write_action write_function_call write_public_key write_signature
    write_signed le_write whole read_signed read_delegate read_action read_function_call
    read_public_key read_signature read_exact read_items le_read is_ascii is_account is_account_char
    signed_message signed_message_hash parse_signed require_single_function_call resume_intent
    charge_fee fee_for find_tier
resume_intent_rejects_underpayment_lem = refl

batch_of_four_requires_tier2_fee_lem :
    batch_of_four_requires_tier2_fee ≡ err (panicked (insufficient_fee tier2_yocto 4 tier1_yocto))
unfolding batch_of_four_requires_tier2_fee new text_eq assert_owner Admin.add_relayer insert lookup
    remove contains_key submit_intent check_signed hold_intent nonce_key decimal digits verify
    write_delegate write_action write_function_call write_public_key write_signature write_signed
    le_write whole read_signed read_delegate read_action read_function_call read_public_key
    read_signature read_exact read_items le_read is_ascii is_account is_account_char signed_message
    signed_message_hash parse_signed require_single_function_call resume_batch_chained charge_fee
    fee_for find_tier
batch_of_four_requires_tier2_fee_lem = refl
