-- ===== src/Gate/Submit.antt =====
-- `submit_intent` (contracts/gate/src/lib.rs): the checks, and the intent held under a yield.
pub mod Accepts
pub mod Refuses
use sequential_near.Prelude.{
  ℕ, not, [], ◌∷◌, Result, ok, err, ◌>>=◌, ◌>>◌, require, or_panic, ltb, nat_key, text_key,
}
use sequential_near.Prelude.Map.{contains_key, insert}
use sequential_near.Prelude.Word.{u64_mod, checked_add}
use sequential_near.Host.{Bytes, Call}
use sequential_near.Borsh.{Borsh}
use sequential_near.Nep366.{
  Crypto, DelegateAction, FunctionCallAction, SignedDelegateAction, parse_signed, verify,
  require_single_function_call,
}
use sequential_near.Gate.Types.{PendingIntent, CallbackArgs, Json}
use sequential_near.Gate.State.{
  Gate, Panic, Promise, yielded, Handler, done, not_relayer, invalid_delegate, bad_signature,
  expired, nonce_used, bad_actions, counter_overflow, args_serialization, intent_submitted,
  gas_yield_callback,
}
use sequential_near.Gate.Nonce.{nonce_key}

-- `result.unwrap_or_else(|e| env::panic_str(..))`
abbrev pub or_panic_with {ℓ κ} :
    {E : Type κ} {A : Type ℓ} → (E → Panic) → Result E A → Result Panic A
or_panic_with f (ok a) = ok a
or_panic_with f (err e) = err (f e)

-- The checks of `submit_intent` on a delegate that parsed; they end with its one function call.
unfoldable pub check_signed :
    Borsh → Crypto → Call → SignedDelegateAction → Gate → Result Panic FunctionCallAction
check_signed b k c signed g = do
  require (verify b k signed) bad_signature
  let delegate = signed.delegate_action
  require (ltb c.block_height delegate.max_block_height) expired
  let key = nonce_key delegate.sender_id delegate.nonce
  require (not (contains_key key g.used_nonces)) nonce_used
  or_panic_with bad_actions (require_single_function_call delegate)

-- The rest of `submit_intent`: the counters, the nonce, the yield, and the stored intent.
unfoldable pub hold_intent : Json → Call → DelegateAction → FunctionCallAction → Handler Promise
hold_intent j c delegate fc g = do
  let key = nonce_key delegate.sender_id delegate.nonce
  let intent_id = g.next_intent_id
  next_id ← or_panic (checked_add u64_mod g.next_intent_id 1) counter_overflow
  submitted ← or_panic (checked_add u64_mod g.intents_submitted 1) counter_overflow
  let callback_args : CallbackArgs = record {
    intent_id = intent_id;
    receiver = delegate.receiver_id;
    method = fc.method_name;
    args = fc.args;
    deposit = fc.deposit;
    gas = fc.gas;
  }
  callback_args_bytes ← or_panic (j.args_to_vec callback_args) args_serialization
  let intent : PendingIntent = record {
    yield_id = c.fresh_yield;
    sender = delegate.sender_id;
    receiver_id = delegate.receiver_id;
    method = fc.method_name;
    args = fc.args;
    deposit = fc.deposit;
    gas = fc.gas;
    nonce = delegate.nonce;
    expires_at_block = delegate.max_block_height;
    submitted_at_block = c.block_height;
  }
  done (yielded c.fresh_yield callback_args_bytes gas_yield_callback 1)
      (intent_submitted intent_id delegate.sender_id delegate.receiver_id fc.method_name
          delegate.nonce
        ∷ [])
      (record g {
        next_intent_id = next_id;
        used_nonces = insert key c.block_height g.used_nonces;
        intents_submitted = submitted;
        pending = insert intent_id intent g.pending;
      })

-- `Gate::submit_intent`
unfoldable pub submit_intent : Borsh → Crypto → Json → Call → Bytes → Handler Promise
submit_intent b k j c signed_delegate g = do
  let relayer = c.predecessor
  require (contains_key relayer g.relayers) not_relayer
  signed ← or_panic_with invalid_delegate (parse_signed b signed_delegate)
  fc ← check_signed b k c signed g
  hold_intent j c signed.delegate_action fc g
