-- ===== src/Nep366.antt =====
-- contracts/gate/src/nep366.rs: the NEP-366 wire format and the check of the signature. The borsh
-- primitives and the host's `sha256` and `ed25519_verify` are parameters.
pub mod Fields
pub mod RoundTrip
pub mod Rejects
pub mod Truncated
pub mod Signing
pub mod Tests
pub mod Suite
use sequential_near.Prelude.{
  ℕ, ◌+◌, ◌^◌, ◌<◌, ◌≡◌, Bool, List, [], ◌∷◌, ◌++◌, All, length, Result, ok, err, ◌>>=◌, ◌>>◌,
  require, first, or_panic, nat_eq, if◌then◌else◌,
}
use sequential_near.Prelude.Word.{u32_mod, u64_mod, u128_mod}
use sequential_near.Host.{Bytes, Text, AccountId}
use sequential_near.Borsh.{
  IsByte, IoError, bad_key_tag, bad_signature_tag, unsupported_variant, nested_delegate, Reader,
  Codec, read_exact, Borsh,
}

-- `1 << 30`
abbrev pub min_on_chain_discriminant : ℕ
min_on_chain_discriminant = 2 ^ 30

abbrev pub nep_366_delegate_discriminant : ℕ
nep_366_delegate_discriminant = min_on_chain_discriminant + 366

abbrev pub action_tag_function_call : ℕ
action_tag_function_call = 2

abbrev pub action_tag_delegate : ℕ
action_tag_delegate = 8

pub record Ed25519PublicKey : Type 0 where
  pub bytes : Bytes

pub record Ed25519Signature : Type 0 where
  pub bytes : Bytes

pub record FunctionCallAction : Type 0 where
  pub method_name : Text
  pub args : Bytes
  pub gas : ℕ
  pub deposit : ℕ

pub data NonDelegateAction : Type 0 where
  function_call : FunctionCallAction → NonDelegateAction

pub record DelegateAction : Type 0 where
  pub sender_id : AccountId
  pub receiver_id : AccountId
  pub actions : List NonDelegateAction
  pub nonce : ℕ
  pub max_block_height : ℕ
  pub public_key : Ed25519PublicKey

pub record SignedDelegateAction : Type 0 where
  pub delegate_action : DelegateAction
  pub signature : Ed25519Signature

-- The writers and readers; a derived one goes through the fields in the order of their declaration.
module _ (b : Borsh) where
  unfoldable pub write_public_key : Ed25519PublicKey → Bytes
  write_public_key key = b.u8.write 0 ++ key.bytes

  unfoldable pub read_public_key : Reader Ed25519PublicKey
  read_public_key bs = do
    (tag, bs) ← b.u8.read bs
    require (nat_eq tag 0) (bad_key_tag tag)
    (bytes, bs) ← read_exact 32 bs
    ok (record { bytes = bytes }, bs)

  unfoldable pub write_signature : Ed25519Signature → Bytes
  write_signature sig = b.u8.write 0 ++ sig.bytes

  unfoldable pub read_signature : Reader Ed25519Signature
  read_signature bs = do
    (tag, bs) ← b.u8.read bs
    require (nat_eq tag 0) (bad_signature_tag tag)
    (bytes, bs) ← read_exact 64 bs
    ok (record { bytes = bytes }, bs)

  unfoldable pub write_function_call : FunctionCallAction → Bytes
  write_function_call fc =
      b.text.write fc.method_name
      ++ ((b.vec ℕ b.u8).write fc.args ++ (b.u64.write fc.gas ++ b.u128.write fc.deposit))

  unfoldable pub read_function_call : Reader FunctionCallAction
  read_function_call bs = do
    (method_name, bs) ← b.text.read bs
    (args, bs) ← (b.vec ℕ b.u8).read bs
    (gas, bs) ← b.u64.read bs
    (deposit, bs) ← b.u128.read bs
    ok (record { method_name = method_name; args = args; gas = gas; deposit = deposit }, bs)

  unfoldable pub write_action : NonDelegateAction → Bytes
  unfolding write_function_call
  write_action (function_call fc) = b.u8.write action_tag_function_call ++ write_function_call fc

  -- The `match` on the tag.
  abbrev pub read_variant : ℕ → Reader NonDelegateAction
  read_variant tag bs =
      if nat_eq tag action_tag_function_call
      then (do (fc, bs) ← read_function_call bs; ok (function_call fc, bs))
      else if nat_eq tag action_tag_delegate
      then err nested_delegate
      else err (unsupported_variant tag)

  unfoldable pub read_action : Reader NonDelegateAction
  read_action bs = do (tag, bs) ← b.u8.read bs; read_variant tag bs

  abbrev pub action_codec : Codec NonDelegateAction
  action_codec = record { write = write_action; read = read_action }

  unfoldable pub write_delegate : DelegateAction → Bytes
  write_delegate d =
      b.account.write d.sender_id
      ++ (b.account.write d.receiver_id
          ++ ((b.vec NonDelegateAction action_codec).write d.actions
              ++ (b.u64.write d.nonce
                  ++ (b.u64.write d.max_block_height ++ write_public_key d.public_key))))

  unfoldable pub read_delegate : Reader DelegateAction
  read_delegate bs = do
    (sender_id, bs) ← b.account.read bs
    (receiver_id, bs) ← b.account.read bs
    (actions, bs) ← (b.vec NonDelegateAction action_codec).read bs
    (nonce, bs) ← b.u64.read bs
    (max_block_height, bs) ← b.u64.read bs
    (public_key, bs) ← read_public_key bs
    ok (
      record {
        sender_id = sender_id;
        receiver_id = receiver_id;
        actions = actions;
        nonce = nonce;
        max_block_height = max_block_height;
        public_key = public_key;
      },
      bs,
    )

  unfoldable pub write_signed : SignedDelegateAction → Bytes
  write_signed s = write_delegate s.delegate_action ++ write_signature s.signature

  unfoldable pub read_signed : Reader SignedDelegateAction
  read_signed bs = do
    (delegate_action, bs) ← read_delegate bs
    (signature, bs) ← read_signature bs
    ok (record { delegate_action = delegate_action; signature = signature }, bs)

  -- `SignedDelegateAction::try_from_slice`
  unfoldable pub parse_signed : Bytes → Result IoError SignedDelegateAction
  parse_signed = b.try_from_slice SignedDelegateAction read_signed

  -- The bytes that are hashed and signed: the discriminant, then the delegate.
  unfoldable pub signed_message : DelegateAction → Bytes
  signed_message d = b.u32.write nep_366_delegate_discriminant ++ write_delegate d

-- The host functions that the gate calls to check a signature.
pub record Crypto : Type 0 where
  pub sha256 : Bytes → Bytes
  -- signature, message, public key
  pub ed25519_verify : Bytes → Bytes → Bytes → Bool

-- `DelegateAction::signed_message_hash`
unfoldable pub signed_message_hash : Borsh → Crypto → DelegateAction → Bytes
unfolding signed_message
signed_message_hash b k d = k.sha256 (signed_message b d)

-- `SignedDelegateAction::verify`
unfoldable pub verify : Borsh → Crypto → SignedDelegateAction → Bool
unfolding signed_message_hash
verify b k s =
    k.ed25519_verify s.signature.bytes (signed_message_hash b k s.delegate_action)
      s.delegate_action.public_key.bytes

-- `not_one_action` is the error of the source; `out_of_range` stands for the panic of `actions[0]`.
pub data ActionsError : Type 0 where
  not_one_action out_of_range : ActionsError

-- The `match` on the only variant.
abbrev pub as_function_call : NonDelegateAction → FunctionCallAction
as_function_call (function_call fc) = fc

-- `DelegateAction::require_single_function_call`
unfoldable pub require_single_function_call :
    DelegateAction → Result ActionsError FunctionCallAction
require_single_function_call d = do
  require (nat_eq (length d.actions) 1) not_one_action
  action ← or_panic (first d.actions) out_of_range
  ok (as_function_call action)
