-- ===== src/Gate/Suite/Submissions.antt =====
-- The unit tests of contracts/gate/src/lib.rs that submit intents, which the model passes.
use sequential_near.Prelude.{
  ℕ, ◌≡◌, refl, List, [], ◌∷◌, ok, err, ◌>>=◌, ◌>>◌, text_key, nat_key, text_eq, or_panic, ◌%◌, ◌+◌,
  ◌-◌, nat_eq, leb, if◌then◌else◌, Result,
}
use sequential_near.Prelude.Map.{lookup, insert, remove, contains_key, keys}
use sequential_near.Prelude.Suite.{Verdict, panicked, asserted, assert_eq, Fault}
use sequential_near.Gate.Suite.{relayer, alice, target, with_ctx, run, init_with_relayer}
use sequential_near.Gate.State.{
  Gate, Panic, new, assert_owner, not_relayer, bad_signature, expired, nonce_used,
}
use sequential_near.Host.{Bytes, AccountId}
use sequential_near.Borsh.{read_exact}
use sequential_near.Borsh.Little.{
  little, whole, le_write, le_read, read_items, is_ascii, is_account, is_account_char,
}
use sequential_near.Nep366.{
  DelegateAction, FunctionCallAction, function_call, write_delegate, read_delegate, write_action,
  read_action, write_function_call, read_function_call, write_public_key, read_public_key,
  write_signature, read_signature, write_signed, read_signed, parse_signed, signed_message,
  signed_message_hash, verify, require_single_function_call,
}
use sequential_near.Nep366.Suite.{verifying_key, signed_by, crypto}
use sequential_near.Gate.Nonce.{nonce_key, decimal, digits}
use sequential_near.Gate.Admin
use sequential_near.Gate.Submit.{submit_intent, check_signed, hold_intent}
use sequential_near.Gate.Views.{get_pending, list_pending, stats}
use sequential_near.Gate.Tests.{json}

-- The key pair's secret is any byte.
abbrev pub sample_signed_delegate : ℕ → AccountId → AccountId → ℕ → ℕ → Bytes
sample_signed_delegate secret sender receiver nonce max_block_height =
    let fc : FunctionCallAction = record {
      method_name = b's' ∷ b'e' ∷ b't' ∷ [];
      args =
          b'{' ∷ b'"' ∷ b'v' ∷ b'a' ∷ b'l' ∷ b'u' ∷ b'e' ∷ b'"' ∷ b':' ∷ b'"' ∷ b'4' ∷ b'2' ∷ b'"'
          ∷ b'}' ∷ [];
      gas = 30_000_000_000_000;
      deposit = 0;
    } in
    let da : DelegateAction = record {
      sender_id = sender;
      receiver_id = receiver;
      actions = function_call fc ∷ [];
      nonce = nonce;
      max_block_height = max_block_height;
      public_key = record { bytes = verifying_key secret };
    } in
    write_signed little (signed_by secret da)

-- `bytes[last] ^= 0x01`
abbrev flip_last : Bytes → Bytes
flip_last [] = []
flip_last (b ∷ []) = (if nat_eq (b % 2) 0 then b + 1 else b - 1) ∷ []
flip_last (b ∷ c ∷ bs) = b ∷ flip_last (c ∷ bs)

abbrev pub submit_one : ℕ → Gate → Result (Fault Panic) Gate
submit_one nonce gate = run (
    submit_intent little crypto json (with_ctx relayer 110)
      (sample_signed_delegate 7 alice target nonce 10_000) gate)

abbrev placed : ℕ → List ℕ → List ℕ
placed x [] = x ∷ []
placed x (y ∷ ys) = if leb x y then x ∷ y ∷ ys else y ∷ placed x ys

-- `listed.sort_by_key(|u| u.0)`
abbrev sorted : List ℕ → List ℕ
sorted [] = []
sorted (x ∷ xs) = placed x (sorted xs)

submit_rejects_non_relayer_caller : Verdict Panic
submit_rejects_non_relayer_caller = do
  gate ← init_with_relayer
  gate ← run (
      submit_intent little crypto json (with_ctx alice 110)
        (sample_signed_delegate 7 alice target 1 10000) gate)
  ok tt

submit_rejects_expired_intent : Verdict Panic
submit_rejects_expired_intent = do
  gate ← init_with_relayer
  gate ← run (
      submit_intent little crypto json (with_ctx relayer 100)
        (sample_signed_delegate 7 alice target 1 50) gate)
  ok tt

submit_rejects_bad_signature : Verdict Panic
submit_rejects_bad_signature = do
  gate ← init_with_relayer
  gate ← run (
      submit_intent little crypto json (with_ctx relayer 110)
        (flip_last (sample_signed_delegate 7 alice target 1 10000)) gate)
  ok tt

submit_rejects_replay : Verdict Panic
submit_rejects_replay = do
  gate ← init_with_relayer
  let bytes = sample_signed_delegate 7 alice target 42 10000
  gate ← run (submit_intent little crypto json (with_ctx relayer 110) bytes gate)
  gate ← run (submit_intent little crypto json (with_ctx relayer 111) bytes gate)
  ok tt

submit_records_pending_and_increments_counters : Verdict Panic
submit_records_pending_and_increments_counters = do
  gate ← init_with_relayer
  gate ← run (
      submit_intent little crypto json (with_ctx relayer 110)
        (sample_signed_delegate 7 alice target 1 10000) gate)
  view ← or_panic (get_pending 0 gate) asserted
  assert_eq view.sender alice
  assert_eq view.receiver_id target
  assert_eq view.method (b's' ∷ b'e' ∷ b't' ∷ [])
  assert_eq view.nonce 1
  assert_eq view.expires_at_block 10_000
  assert_eq view.submitted_at_block 110
  let (submitted, dispatched, rejected, next_id, batch_id) = stats gate
  assert_eq submitted 1
  assert_eq dispatched 0
  assert_eq rejected 0
  assert_eq next_id 1
  assert_eq batch_id 0
  assert_eq (list_pending gate) (0 ∷ [])

submit_mints_monotonic_ids_and_preserves_existing : Verdict Panic
submit_mints_monotonic_ids_and_preserves_existing = do
  gate ← init_with_relayer
  gate ← run (
      submit_intent little crypto json (with_ctx relayer 110)
        (sample_signed_delegate 7 alice target 1 10000) gate)
  gate ← run (
      submit_intent little crypto json (with_ctx relayer 111)
        (sample_signed_delegate 7 alice target 2 10000) gate)
  first_view ← or_panic (get_pending 0 gate) asserted
  second_view ← or_panic (get_pending 1 gate) asserted
  assert_eq (stats gate).3 2
  assert_eq (stats gate).4 0
  let listed = sorted (list_pending gate)
  assert_eq listed (0 ∷ 1 ∷ [])

submit_rejects_non_relayer_caller_lem :
    submit_rejects_non_relayer_caller ≡ err (panicked not_relayer)
unfolding submit_rejects_non_relayer_caller new text_eq assert_owner Admin.add_relayer insert lookup
    remove contains_key submit_intent check_signed hold_intent nonce_key decimal digits verify
    write_delegate write_action write_function_call write_public_key write_signature write_signed
    le_write whole read_signed read_delegate read_action read_function_call read_public_key
    read_signature read_exact read_items le_read is_ascii is_account is_account_char signed_message
    signed_message_hash parse_signed require_single_function_call
submit_rejects_non_relayer_caller_lem = refl

submit_rejects_expired_intent_lem : submit_rejects_expired_intent ≡ err (panicked expired)
unfolding submit_rejects_expired_intent new text_eq assert_owner Admin.add_relayer insert lookup
    remove contains_key submit_intent check_signed hold_intent nonce_key decimal digits verify
    write_delegate write_action write_function_call write_public_key write_signature write_signed
    le_write whole read_signed read_delegate read_action read_function_call read_public_key
    read_signature read_exact read_items le_read is_ascii is_account is_account_char signed_message
    signed_message_hash parse_signed require_single_function_call
submit_rejects_expired_intent_lem = refl

submit_rejects_bad_signature_lem : submit_rejects_bad_signature ≡ err (panicked bad_signature)
unfolding submit_rejects_bad_signature new text_eq assert_owner Admin.add_relayer insert lookup
    remove contains_key submit_intent check_signed hold_intent nonce_key decimal digits verify
    write_delegate write_action write_function_call write_public_key write_signature write_signed
    le_write whole read_signed read_delegate read_action read_function_call read_public_key
    read_signature read_exact read_items le_read is_ascii is_account is_account_char signed_message
    signed_message_hash parse_signed require_single_function_call
submit_rejects_bad_signature_lem = refl

submit_rejects_replay_lem : submit_rejects_replay ≡ err (panicked nonce_used)
unfolding submit_rejects_replay new text_eq assert_owner Admin.add_relayer insert lookup remove
    contains_key submit_intent check_signed hold_intent nonce_key decimal digits verify
    write_delegate write_action write_function_call write_public_key write_signature write_signed
    le_write whole read_signed read_delegate read_action read_function_call read_public_key
    read_signature read_exact read_items le_read is_ascii is_account is_account_char signed_message
    signed_message_hash parse_signed require_single_function_call
submit_rejects_replay_lem = refl

submit_records_pending_and_increments_counters_lem :
    submit_records_pending_and_increments_counters ≡ ok tt
unfolding submit_records_pending_and_increments_counters new text_eq assert_owner Admin.add_relayer
    insert lookup remove contains_key submit_intent check_signed hold_intent nonce_key decimal
    digits verify write_delegate write_action write_function_call write_public_key write_signature
    write_signed le_write whole read_signed read_delegate read_action read_function_call
    read_public_key read_signature read_exact read_items le_read is_ascii is_account is_account_char
    signed_message signed_message_hash parse_signed require_single_function_call get_pending
    list_pending keys
submit_records_pending_and_increments_counters_lem = refl

submit_mints_monotonic_ids_and_preserves_existing_lem :
    submit_mints_monotonic_ids_and_preserves_existing ≡ ok tt
unfolding submit_mints_monotonic_ids_and_preserves_existing new text_eq assert_owner
    Admin.add_relayer insert lookup remove contains_key submit_intent check_signed hold_intent
    nonce_key decimal digits verify write_delegate write_action write_function_call write_public_key
    write_signature write_signed le_write whole read_signed read_delegate read_action
    read_function_call read_public_key read_signature read_exact read_items le_read is_ascii
    is_account is_account_char signed_message signed_message_hash parse_signed
    require_single_function_call get_pending list_pending keys
submit_mints_monotonic_ids_and_preserves_existing_lem = refl
