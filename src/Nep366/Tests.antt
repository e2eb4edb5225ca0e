-- ===== src/Nep366/Tests.antt =====
-- The wire format (contracts/gate/src/nep366.rs) at a concrete delegate, in the little-endian
-- implementation of the borsh primitives.
use sequential_near.Prelude.{
  ◌≡◌, ◌≢◌, ◌⊎◌, refl, [], ◌∷◌, ◌++◌, ◌&&◌, ◌%◌, All, length, ok, err, arith, nat_eq,
}
use sequential_near.Host.{Bytes, Text}
use sequential_near.Borsh.{IsByte, IoError, unsupported_variant, bad_key_tag, bad_signature_tag}
use sequential_near.Borsh.Little.{
  little, little_laws, IsValidText, all, is_ascii, is_account, is_account_char, le_write,
}
use sequential_near.Nep366.{
  FunctionCallAction, function_call, DelegateAction, SignedDelegateAction, Crypto, write_signed,
  parse_signed, read_action, signed_message, signed_message_hash, write_delegate, write_action,
  write_public_key, write_signature,
}
use sequential_near.Nep366.Fields.{IsDelegate, IsSigned}
use sequential_near.Nep366.RoundTrip.{parse_signed-write_signed, parse_signed-ok}
use sequential_near.Nep366.Rejects.{before_key, read_action-refuses, parse_signed-refuses_curve}
use sequential_near.Nep366.Truncated.{parse_signed-refuses_prefix}
use sequential_near.Nep366.Signing.{signed_message_hash-eq}

abbrev pub eight : Bytes
eight = 1 ∷ 2 ∷ 3 ∷ 4 ∷ 5 ∷ 6 ∷ 7 ∷ 8 ∷ []

abbrev pub thirty_two : Bytes
thirty_two = eight ++ (eight ++ (eight ++ eight))

abbrev pub set_nine : FunctionCallAction
set_nine = record {
  method_name = b's' ∷ b'e' ∷ b't' ∷ [];
  args = b'9' ∷ [];
  gas = 30_000_000_000_000;
  deposit = 0;
}

abbrev pub delegate : DelegateAction
delegate = record {
  sender_id = b'a' ∷ b'l' ∷ [];
  receiver_id = b'r' ∷ b'e' ∷ b'g' ∷ [];
  actions = function_call set_nine ∷ [];
  nonce = 41;
  max_block_height = 500;
  public_key = record { bytes = thirty_two };
}

abbrev pub signed : SignedDelegateAction
signed = record {
  delegate_action = delegate;
  signature = record { bytes = thirty_two ++ thirty_two };
}

-- A stand-in for the host's functions.
abbrev pub crypto : Crypto
crypto = record {
  sha256 = λ bs. length bs % 256 ∷ [];
  ed25519_verify = λ sig message key. nat_eq (length sig) 64 && nat_eq (length key) 32;
}

abbrev pub IsAscii : Text → Type 0
IsAscii = IsValidText (all is_ascii)

abbrev pub IsAccount : Text → Type 0
IsAccount = IsValidText is_account

pub delegate-IsDelegate : IsDelegate IsAscii IsAccount delegate
unfolding is_ascii is_account is_account_char
delegate-IsDelegate = record {
  sender_account = (refl, omega arith);
  receiver_account = (refl, omega arith);
  actions_valid = (
    (
      record {
        method_text = (refl, omega arith);
        args_bytes = omega arith;
        gas_u64 = omega arith;
        deposit_u128 = omega arith;
      },
      tt,
    ),
    omega arith,
  );
  nonce_u64 = omega arith;
  height_u64 = omega arith;
  key_valid = (refl, omega arith);
}

pub signed-IsSigned : IsSigned IsAscii IsAccount signed
signed-IsSigned = record {
  delegate_valid = delegate-IsDelegate;
  signature_valid = (refl, omega arith);
}

parse_signed-write_signed_example : parse_signed little (write_signed little signed) ≡ ok signed
parse_signed-write_signed_example = parse_signed-write_signed little_laws signed signed-IsSigned

parse_signed-signed : parse_signed little (write_signed little signed) ≡ ok signed
parse_signed-signed = parse_signed-write_signed little_laws signed signed-IsSigned

written_IsByte : All IsByte (write_signed little signed)
unfolding write_signed write_delegate write_action write_public_key write_signature le_write
written_IsByte = omega arith

parse_signed-ok_example :
    IsSigned IsAscii IsAccount signed × (write_signed little signed ≡ write_signed little signed)
parse_signed-ok_example =
    parse_signed-ok little_laws (write_signed little signed) signed written_IsByte
      parse_signed-signed

read_action-refuses_lem :
    read_action little (little.u8.write 3 ++ (7 ∷ [])) ≡ err (unsupported_variant 3)
read_action-refuses_lem = read_action-refuses little_laws 3 (7 ∷ []) (omega arith) (omega arith)

-- The same delegate under the next nonce: the hash of the stand-in is the length, so that they collide.
abbrev pub next_delegate : DelegateAction
next_delegate = record delegate { nonce = 42 }

pub next_delegate-IsDelegate : IsDelegate IsAscii IsAccount next_delegate
next_delegate-IsDelegate = record {
  sender_account = delegate-IsDelegate.sender_account;
  receiver_account = delegate-IsDelegate.receiver_account;
  actions_valid = delegate-IsDelegate.actions_valid;
  nonce_u64 = omega arith;
  height_u64 = delegate-IsDelegate.height_u64;
  key_valid = delegate-IsDelegate.key_valid;
}

collision :
    signed_message_hash little crypto delegate ≡ signed_message_hash little crypto next_delegate
unfolding signed_message_hash signed_message write_delegate write_action write_public_key le_write
collision = refl

signed_message_hash-eq_example :
    (delegate ≡ next_delegate)
    ⊎ ((signed_message little delegate ≢ signed_message little next_delegate)
        × (crypto.sha256 (signed_message little delegate)
            ≡ crypto.sha256 (signed_message little next_delegate)))
signed_message_hash-eq_example =
    signed_message_hash-eq little_laws crypto delegate next_delegate delegate-IsDelegate
      next_delegate-IsDelegate collision

-- The signature is missing.
parse_signed-refuses_prefix_example :
    (e : IoError) × (parse_signed little (write_delegate little delegate) ≡ err e)
unfolding write_signed write_signature le_write
parse_signed-refuses_prefix_example =
    parse_signed-refuses_prefix little_laws (write_delegate little delegate)
      (write_signature little signed.signature) signed written_IsByte (λ e. cc e)
      parse_signed-signed

-- The tag of secp256k1.
parse_signed-refuses_curve_example :
    (parse_signed little (write_delegate little delegate ++ (little.u8.write 1 ++ (7 ∷ [])))
      ≡ err (bad_signature_tag 1))
    × (parse_signed little (before_key little delegate ++ (little.u8.write 1 ++ (7 ∷ [])))
        ≡ err (bad_key_tag 1))
parse_signed-refuses_curve_example =
    parse_signed-refuses_curve little_laws delegate 1 (7 ∷ []) delegate-IsDelegate (omega arith)
      (omega arith)
