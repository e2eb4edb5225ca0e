-- ===== src/Gate/Types.antt =====
-- contracts/gate/src/types.rs: stored intents, their view, and the payload of a resume; and the JSON
-- layer of near-sdk (serde_json), which is a parameter.
use sequential_near.Prelude.{ℕ, ◌≡◌, Bool, Option, some, [], ◌∷◌}
use sequential_near.Host.{Bytes, Text, AccountId, YieldId}

pub record PendingIntent : Type 0 where
  pub yield_id : YieldId
  pub sender : AccountId
  pub receiver_id : AccountId
  pub method : Text
  pub args : Bytes
  pub deposit : ℕ
  pub gas : ℕ
  pub nonce : ℕ
  pub expires_at_block : ℕ
  pub submitted_at_block : ℕ

pub record PendingIntentView : Type 0 where
  pub intent_id : ℕ
  pub sender : AccountId
  pub receiver_id : AccountId
  pub method : Text
  pub nonce : ℕ
  pub expires_at_block : ℕ
  pub submitted_at_block : ℕ

pub record ResumeSignal : Type 0 where
  pub approve : Bool
  pub sequence_number : Option ℕ
  pub next_intent_id : Option ℕ

-- The object that `submit_intent` packs for the callback.
pub record CallbackArgs : Type 0 where
  pub intent_id : ℕ
  pub receiver : AccountId
  pub method : Text
  pub args : Bytes
  pub deposit : ℕ
  pub gas : ℕ

abbrev pub sk_relayers : Bytes
sk_relayers = b'r' ∷ []

abbrev pub sk_pending : Bytes
sk_pending = b'p' ∷ []

abbrev pub sk_used_nonces : Bytes
sk_used_nonces = b'n' ∷ []

-- `serde_json::to_vec` on the two objects, and how near-sdk reads them back for the callback.
pub record Json : Type 0 where
  pub args_to_vec : CallbackArgs → Option Bytes
  pub args_from_slice : Bytes → Option CallbackArgs
  pub signal_to_vec : ResumeSignal → Option Bytes
  pub signal_from_slice : Bytes → Option ResumeSignal

-- What is written reads back.
pub record JsonLaws (j : Json) : Type 0 where
  pub args_law :
      (a : CallbackArgs) (bs : Bytes) → j.args_to_vec a ≡ some bs → j.args_from_slice bs ≡ some a
  pub signal_law :
      (s : ResumeSignal) (bs : Bytes)
      → j.signal_to_vec s ≡ some bs
      → j.signal_from_slice bs ≡ some s
