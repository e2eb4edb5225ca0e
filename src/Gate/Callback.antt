-- ===== src/Gate/Callback.antt =====
-- `on_intent_resumed` (contracts/gate/src/lib.rs): the yielded callback, which dispatches the intent
-- or counts it as rejected.
pub mod Outcomes
use sequential_near.Prelude.{
  ℕ, Bool, true, false, Option, none, some, [], ◌∷◌, Result, ok, err, ◌>>=◌, ◌>>◌, or_panic,
  nat_key,
}
use sequential_near.Prelude.Map.{remove}
use sequential_near.Prelude.Word.{u32_mod, u64_mod, checked_add}
use sequential_near.Host.{Text, Call}
use sequential_near.Gate.Types.{ResumeSignal, CallbackArgs}
use sequential_near.Gate.State.{
  Gate, Panic, Promise, function_call, then_continue_chain, PromiseOrValue, promise, value, Done,
  Handler, done, counter_overflow, resolved_timeout, resolved_rejected, intent_dispatched,
  gas_continue_chain, assert_private,
}

-- The `Debug` text of near-sdk's `PromiseError`, which is all that the gate reads of one.
abbrev pub PromiseError : Type 0
PromiseError = Text

-- `seq.map(|s| s + 1).unwrap_or(1)`
pub next_seq : Option ℕ → Result Panic ℕ
next_seq none = ok 1
next_seq (some s) = or_panic (checked_add u32_mod s 1) counter_overflow

-- What is returned for the dispatched call: alone, or with the next link of the chain behind it.
unfoldable pub chained : Call → Promise → Option ℕ → Option ℕ → Result Panic PromiseOrValue
chained c dispatch seq none = ok (promise dispatch)
chained c dispatch seq (some next_id) = do
  s ← next_seq seq
  ok (promise (then_continue_chain dispatch c.current_account gas_continue_chain next_id s))

-- The body of `on_intent_resumed`, behind the removal of the intent.
unfoldable pub resolve :
    Call → CallbackArgs → Result PromiseError ResumeSignal → Handler PromiseOrValue
resolve c a (err e) g = do
  rejected ← or_panic (checked_add u64_mod g.intents_rejected 1) counter_overflow
  done value (resolved_timeout a.intent_id e ∷ []) (record g { intents_rejected = rejected })
resolve c a (ok signal) g = elim signal.approve [
  | false ↦ (do
    rejected ← or_panic (checked_add u64_mod g.intents_rejected 1) counter_overflow
    done value (resolved_rejected a.intent_id ∷ []) (record g { intents_rejected = rejected }))
  | true ↦ (do
    dispatched ← or_panic (checked_add u64_mod g.intents_dispatched 1) counter_overflow
    r ←
        chained c (function_call a.receiver a.method a.args a.deposit a.gas) signal.sequence_number
          signal.next_intent_id
    done r (intent_dispatched a.intent_id a.receiver a.method signal.sequence_number ∷ [])
        (record g { intents_dispatched = dispatched }))
]

-- `Gate::on_intent_resumed`
unfoldable pub on_intent_resumed :
    Call → CallbackArgs → Result PromiseError ResumeSignal → Handler PromiseOrValue
on_intent_resumed c a signal g = do
  assert_private c
  resolve c a signal (record g { pending = remove a.intent_id g.pending })
