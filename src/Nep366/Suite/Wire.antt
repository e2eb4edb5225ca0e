-- ===== src/Nep366/Suite/Wire.antt =====
-- The unit tests of contracts/gate/src/nep366.rs on the wire format and on the actions, which the model
-- passes.
use sequential_near.Prelude.{
  ℕ, map, ◌≡◌, refl, List, [], ◌∷◌, ◌++◌, ok, err, ◌>>=◌, text_key, nat_key, text_eq,
}
use sequential_near.Prelude.Suite.{Verdict, panicked, call, assert, assert_eq}
use sequential_near.Borsh.{
  IoError, nested_delegate, unsupported_variant, bad_key_tag, bad_signature_tag, read_exact,
}
use sequential_near.Borsh.Little.{
  little, whole, le_write, le_read, read_items, is_ascii, is_account, is_account_char,
}
use sequential_near.Nep366.{
  DelegateAction, NonDelegateAction, Ed25519PublicKey, Ed25519Signature,
  nep_366_delegate_discriminant, action_tag_delegate, action_codec, write_delegate, read_delegate,
  write_action, read_action, write_function_call, read_function_call, write_public_key,
  read_public_key, write_signature, read_signature, write_signed, read_signed, parse_signed,
  signed_message, signed_message_hash,
}
use sequential_near.Nep366.Suite.{
  repeat, verifying_key, sample_delegate, signed_by, same_delegate, same_signed,
}

-- `Vec::<NonDelegateAction>::try_from_slice` on one action with this tag, and the error that it gives.
unsupported_tag : ℕ → Verdict IoError
unsupported_tag tag = do
  let bytes = little.u32.write 1 ++ little.u8.write tag
  actions ← call (
      little.try_from_slice (List NonDelegateAction)
        (little.vec NonDelegateAction (action_codec little)).read bytes)
  ok tt

discriminant_value : Verdict IoError
discriminant_value = do assert_eq nep_366_delegate_discriminant 1_073_742_190

discriminant_borsh_bytes_little_endian : Verdict IoError
discriminant_borsh_bytes_little_endian = do
  let bytes = little.u32.write nep_366_delegate_discriminant
  assert_eq bytes (110 ∷ 1 ∷ 0 ∷ 64 ∷ [])

delegate_round_trip : Verdict IoError
delegate_round_trip = do
  let da = sample_delegate (verifying_key 7)
  let bytes = write_delegate little da
  parsed ← call (little.try_from_slice DelegateAction (read_delegate little) bytes)
  assert (same_delegate da parsed)

signed_delegate_round_trip : Verdict IoError
signed_delegate_round_trip = do
  let sda = signed_by 7 (sample_delegate (verifying_key 7))
  let bytes = write_signed little sda
  parsed ← call (parse_signed little bytes)
  assert (same_signed sda parsed)

nested_delegate_variant_rejected : Verdict IoError
nested_delegate_variant_rejected = do
  let bytes = little.u32.write 1 ++ little.u8.write action_tag_delegate
  actions ← call (
      little.try_from_slice (List NonDelegateAction)
        (little.vec NonDelegateAction (action_codec little)).read bytes)
  ok tt

ed25519_pk_tag_mismatch_rejected : Verdict IoError
ed25519_pk_tag_mismatch_rejected = do
  let bytes = repeat 33 1
  key ← call (little.try_from_slice Ed25519PublicKey (read_public_key little) bytes)
  ok tt

ed25519_sig_tag_mismatch_rejected : Verdict IoError
ed25519_sig_tag_mismatch_rejected = do
  let bytes = repeat 65 1
  sig ← call (little.try_from_slice Ed25519Signature (read_signature little) bytes)
  ok tt

discriminant_value_lem : discriminant_value ≡ ok tt
unfolding discriminant_value
discriminant_value_lem = refl

discriminant_borsh_bytes_little_endian_lem : discriminant_borsh_bytes_little_endian ≡ ok tt
unfolding discriminant_borsh_bytes_little_endian le_write text_eq
discriminant_borsh_bytes_little_endian_lem = refl

delegate_round_trip_lem : delegate_round_trip ≡ ok tt
unfolding delegate_round_trip write_delegate write_action write_function_call write_public_key
    le_write whole read_delegate read_action read_function_call read_public_key read_exact
    read_items le_read is_ascii is_account is_account_char text_eq
delegate_round_trip_lem = refl

signed_delegate_round_trip_lem : signed_delegate_round_trip ≡ ok tt
unfolding signed_delegate_round_trip write_delegate write_action write_function_call
    write_public_key le_write whole read_delegate read_action read_function_call read_public_key
    read_exact read_items le_read is_ascii is_account is_account_char text_eq write_signature
    read_signature write_signed read_signed parse_signed signed_message signed_message_hash
signed_delegate_round_trip_lem = refl

nested_delegate_variant_rejected_lem :
    nested_delegate_variant_rejected ≡ err (panicked nested_delegate)
unfolding nested_delegate_variant_rejected whole le_write le_read read_items read_action
nested_delegate_variant_rejected_lem = refl

ed25519_pk_tag_mismatch_rejected_lem :
    ed25519_pk_tag_mismatch_rejected ≡ err (panicked (bad_key_tag 1))
unfolding ed25519_pk_tag_mismatch_rejected whole le_read read_public_key
ed25519_pk_tag_mismatch_rejected_lem = refl

ed25519_sig_tag_mismatch_rejected_lem :
    ed25519_sig_tag_mismatch_rejected ≡ err (panicked (bad_signature_tag 1))
unfolding ed25519_sig_tag_mismatch_rejected whole le_read read_signature
ed25519_sig_tag_mismatch_rejected_lem = refl

unsupported_variants_rejected : List (Verdict IoError)
unfolding unsupported_tag
unsupported_variants_rejected = map unsupported_tag (0 ∷ 1 ∷ 3 ∷ 4 ∷ 5 ∷ 6 ∷ 7 ∷ [])

unsupported_variants_rejected_lem :
    unsupported_variants_rejected
    ≡ map (λ tag. err (panicked (unsupported_variant tag))) (0 ∷ 1 ∷ 3 ∷ 4 ∷ 5 ∷ 6 ∷ 7 ∷ [])
unfolding unsupported_variants_rejected unsupported_tag whole le_write le_read read_items
    read_action
unsupported_variants_rejected_lem = refl
