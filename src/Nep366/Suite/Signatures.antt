-- ===== src/Nep366/Suite/Signatures.antt =====
-- The unit tests of contracts/gate/src/nep366.rs on signatures and on the single function call, which
-- the model passes.
use sequential_near.Prelude.{
  ◌+◌, ◌-◌, ◌%◌, if◌then◌else◌, ◌≡◌, refl, [], ◌∷◌, ◌++◌, not, ok, err, ◌>>=◌, text_key, nat_key,
  text_eq, nat_eq,
}
use sequential_near.Prelude.Suite.{Verdict, panicked, call, assert, assert_eq}
use sequential_near.Host.{Bytes}
use sequential_near.Borsh.Little.{little, le_write}
use sequential_near.Nep366.{
  DelegateAction, SignedDelegateAction, function_call, ActionsError, not_one_action, write_delegate,
  write_action, write_function_call, write_public_key, signed_message, signed_message_hash, verify,
  require_single_function_call,
}
use sequential_near.Nep366.Suite.{
  verifying_key, crypto, sample_fc_action, sample_delegate, signed_by,
}

-- `^= 0x01` on the first byte.
abbrev flip_first : Bytes → Bytes
flip_first [] = []
flip_first (b ∷ bs) = (if nat_eq (b % 2) 0 then b + 1 else b - 1) ∷ bs

verify_accepts_valid_signature : Verdict ActionsError
verify_accepts_valid_signature = do
  let sda = signed_by 7 (sample_delegate (verifying_key 7))
  assert (verify little crypto sda)

verify_rejects_tampered_signature : Verdict ActionsError
verify_rejects_tampered_signature = do
  let sda = signed_by 7 (sample_delegate (verifying_key 7))
  let tampered : SignedDelegateAction = record sda {
    signature = record { bytes = flip_first sda.signature.bytes };
  }
  assert (not (verify little crypto tampered))

verify_rejects_tampered_payload : Verdict ActionsError
verify_rejects_tampered_payload = do
  let da = sample_delegate (verifying_key 7)
  let sda = signed_by 7 da
  let tampered : SignedDelegateAction = record sda {
    delegate_action = record da { nonce = da.nonce + 1 };
  }
  assert (not (verify little crypto tampered))

verify_rejects_wrong_public_key : Verdict ActionsError
verify_rejects_wrong_public_key = do
  let da = sample_delegate (verifying_key 9)
  assert (not (verify little crypto (signed_by 7 da)))

require_single_function_call_happy_path : Verdict ActionsError
require_single_function_call_happy_path = do
  fc ← call (require_single_function_call (sample_delegate (verifying_key 7)))
  assert_eq fc.method_name (b's' ∷ b'e' ∷ b't' ∷ [])

require_single_function_call_rejects_empty : Verdict ActionsError
require_single_function_call_rejects_empty = do
  let da : DelegateAction = record (sample_delegate (verifying_key 7)) { actions = [] }
  fc ← call (require_single_function_call da)
  ok tt

require_single_function_call_rejects_multi : Verdict ActionsError
require_single_function_call_rejects_multi = do
  let da = sample_delegate (verifying_key 7)
  let more : DelegateAction = record da {
    actions = da.actions ++ (function_call sample_fc_action ∷ []);
  }
  fc ← call (require_single_function_call more)
  ok tt

verify_accepts_valid_signature_lem : verify_accepts_valid_signature ≡ ok tt
unfolding verify_accepts_valid_signature write_delegate write_action write_function_call
    write_public_key le_write signed_message signed_message_hash text_eq verify
verify_accepts_valid_signature_lem = refl

verify_rejects_tampered_signature_lem : verify_rejects_tampered_signature ≡ ok tt
unfolding verify_rejects_tampered_signature write_delegate write_action write_function_call
    write_public_key le_write signed_message signed_message_hash text_eq verify
verify_rejects_tampered_signature_lem = refl

verify_rejects_tampered_payload_lem : verify_rejects_tampered_payload ≡ ok tt
unfolding verify_rejects_tampered_payload write_delegate write_action write_function_call
    write_public_key le_write signed_message signed_message_hash text_eq verify
verify_rejects_tampered_payload_lem = refl

verify_rejects_wrong_public_key_lem : verify_rejects_wrong_public_key ≡ ok tt
unfolding verify_rejects_wrong_public_key write_delegate write_action write_function_call
    write_public_key le_write signed_message signed_message_hash text_eq verify
verify_rejects_wrong_public_key_lem = refl

require_single_function_call_happy_path_lem : require_single_function_call_happy_path ≡ ok tt
unfolding require_single_function_call_happy_path require_single_function_call text_eq
require_single_function_call_happy_path_lem = refl

require_single_function_call_rejects_empty_lem :
    require_single_function_call_rejects_empty ≡ err (panicked not_one_action)
unfolding require_single_function_call_rejects_empty require_single_function_call
require_single_function_call_rejects_empty_lem = refl

require_single_function_call_rejects_multi_lem :
    require_single_function_call_rejects_multi ≡ err (panicked not_one_action)
unfolding require_single_function_call_rejects_multi require_single_function_call
require_single_function_call_rejects_multi_lem = refl
