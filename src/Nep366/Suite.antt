-- ===== src/Nep366/Suite.antt =====
-- What the unit tests of contracts/gate/src/nep366.rs share: a key pair, a delegate, and the derived
-- `PartialEq`. The signature scheme is a stand-in for ed25519: a signature is its key and the hash.
pub mod Wire
pub mod Signatures
use sequential_near.Prelude.{
  ℕ, ◌+◌, ◌*◌, ◌/◌, ◌%◌, zero, suc, Bool, true, false, ◌&&◌, List, [], ◌∷◌, ◌++◌, nat_eq, text_eq,
}
use sequential_near.Host.{Bytes}
use sequential_near.Borsh.Little.{little}
use sequential_near.Nep366.{
  Crypto, Ed25519PublicKey, Ed25519Signature, FunctionCallAction, NonDelegateAction, function_call,
  DelegateAction, SignedDelegateAction, signed_message_hash,
}

-- The first bytes, with zeros where there are none.
abbrev padded : ℕ → Bytes → Bytes
padded zero bs = []
padded (suc n) [] = 0 ∷ padded n []
padded (suc n) (b ∷ bs) = b ∷ padded n bs

-- `[b; n]`
abbrev pub repeat : ℕ → ℕ → Bytes
repeat zero b = []
repeat (suc n) b = b ∷ repeat n b

abbrev checksum : ℕ → Bytes → ℕ
checksum acc [] = acc
checksum acc (b ∷ bs) = checksum ((31 * acc + b) % 65_537) bs

-- A key pair, by a secret byte.
abbrev pub verifying_key : ℕ → Bytes
verifying_key secret = repeat 32 secret

abbrev pub sign : ℕ → Bytes → Bytes
sign secret message = verifying_key secret ++ padded 32 message

abbrev pub crypto : Crypto
crypto = record {
  sha256 = λ bs. let sum = checksum 0 bs in sum % 256 ∷ (sum / 256) ∷ [];
  ed25519_verify = λ sig message key. text_eq sig (key ++ padded 32 message);
}

abbrev pub sample_fc_action : FunctionCallAction
sample_fc_action = record {
  method_name = b's' ∷ b'e' ∷ b't' ∷ [];
  args =
      b'{' ∷ b'"' ∷ b'v' ∷ b'a' ∷ b'l' ∷ b'u' ∷ b'e' ∷ b'"' ∷ b':' ∷ b'"' ∷ b'4' ∷ b'2' ∷ b'"'
      ∷ b'}' ∷ [];
  gas = 50_000_000_000_000;
  deposit = 0;
}

abbrev pub sample_delegate : Bytes → DelegateAction
sample_delegate pk = record {
  sender_id =
      b'a' ∷ b'l' ∷ b'i' ∷ b'c' ∷ b'e' ∷ b'.' ∷ b't' ∷ b'e' ∷ b's' ∷ b't' ∷ b'n' ∷ b'e' ∷ b't' ∷ [];
  receiver_id =
      b'r' ∷ b'e' ∷ b'g' ∷ b'i' ∷ b's' ∷ b't' ∷ b'e' ∷ b'r' ∷ b'.' ∷ b't' ∷ b'e' ∷ b's' ∷ b't'
      ∷ b'n' ∷ b'e' ∷ b't' ∷ [];
  actions = function_call sample_fc_action ∷ [];
  nonce = 42;
  max_block_height = 1_000_000_000;
  public_key = record { bytes = pk };
}

-- A delegate with a signature of the secret's.
abbrev pub signed_by : ℕ → DelegateAction → SignedDelegateAction
signed_by secret da = record {
  delegate_action = da;
  signature = record { bytes = sign secret (signed_message_hash little crypto da) };
}

-- The derived `PartialEq`, field by field.
abbrev same_function_call : FunctionCallAction → FunctionCallAction → Bool
same_function_call a b =
    text_eq a.method_name b.method_name
    && (text_eq a.args b.args && (nat_eq a.gas b.gas && nat_eq a.deposit b.deposit))

abbrev same_actions : List NonDelegateAction → List NonDelegateAction → Bool
same_actions [] [] = true
same_actions [] (b ∷ ys) = false
same_actions (a ∷ xs) [] = false
same_actions (function_call a ∷ xs) (function_call b ∷ ys) =
    same_function_call a b && same_actions xs ys

abbrev pub same_delegate : DelegateAction → DelegateAction → Bool
same_delegate a b =
    text_eq a.sender_id b.sender_id
    && (text_eq a.receiver_id b.receiver_id
        && (same_actions a.actions b.actions
            && (nat_eq a.nonce b.nonce
                && (nat_eq a.max_block_height b.max_block_height
                    && text_eq a.public_key.bytes b.public_key.bytes))))

abbrev pub same_signed : SignedDelegateAction → SignedDelegateAction → Bool
same_signed a b =
    same_delegate a.delegate_action b.delegate_action && text_eq a.signature.bytes b.signature.bytes
