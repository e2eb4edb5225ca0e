-- ===== src/Gate/Callback/Outcomes.antt =====
-- What the yielded callback (contracts/gate/src/lib.rs) does, by the signal that it is given.
use sequential_near.Prelude.{
  ℕ, ◌+◌, ◌<◌, ◌≡◌, refl, true, false, Option, none, some, [], ◌∷◌, Result, ok, err, arith, lt→ltb,
  text_eq, require-eq-ok, >>=-eq-ok, or_panic, Bool-cases, inl, inr, text_eq_iff, text_key, nat_key,
}
use sequential_near.Prelude.Map.{remove}
use sequential_near.Prelude.Word.{u32_mod, u64_mod, checked_add}
use sequential_near.Host.{Call}
use sequential_near.Gate.Types.{ResumeSignal, CallbackArgs}
use sequential_near.Gate.State.{
  Gate, Promise, function_call, then_continue_chain, PromiseOrValue, promise, value, Done,
  resolved_timeout, resolved_rejected, intent_dispatched, gas_continue_chain, assert_private,
  counter_overflow,
}
use sequential_near.Gate.Callback.{PromiseError, next_seq, chained, resolve, on_intent_resumed}

-- The call that an intent stands for.
abbrev pub dispatch_of : CallbackArgs → Promise
dispatch_of a = function_call a.receiver a.method a.args a.deposit a.gas

-- The number of the successor in a chain.
abbrev pub successor : Option ℕ → ℕ
successor none = 1
successor (some s) = s + 1

-- What is returned: the call, with the chain's next link behind it where there is one.
abbrev pub dispatched : Call → CallbackArgs → Option ℕ → Option ℕ → PromiseOrValue
dispatched c a seq none = promise (dispatch_of a)
dispatched c a seq (some next_id) = promise (
    then_continue_chain (dispatch_of a) c.current_account gas_continue_chain next_id
      (successor seq))

chained_lem :
    (c : Call) (a : CallbackArgs) (seq next : Option ℕ)
    → successor seq < u32_mod
    → chained c (dispatch_of a) seq next ≡ ok (dispatched c a seq next)
unfolding chained next_seq
chained_lem c a seq none small = refl
chained_lem c a none (some next_id) small = refl
chained_lem c a (some s) (some next_id) small = rw (lt→ltb _ _ small)

-- The answer of the callback.
abbrev pub callback_done :
    Call → CallbackArgs → Result PromiseError ResumeSignal → Gate → Done PromiseOrValue
callback_done c a (err e) g = record {
  result = value;
  gate = record g {
    pending = remove a.intent_id g.pending;
    intents_rejected = g.intents_rejected + 1;
  };
  events = resolved_timeout a.intent_id e ∷ [];
  resumed = [];
}
callback_done c a (ok signal) g = elim signal.approve [
  | false ↦ record {
    result = value;
    gate = record g {
      pending = remove a.intent_id g.pending;
      intents_rejected = g.intents_rejected + 1;
    };
    events = resolved_rejected a.intent_id ∷ [];
    resumed = [];
  }
  | true ↦ record {
    result = dispatched c a signal.sequence_number signal.next_intent_id;
    gate = record g {
      pending = remove a.intent_id g.pending;
      intents_dispatched = g.intents_dispatched + 1;
    };
    events = intent_dispatched a.intent_id a.receiver a.method signal.sequence_number ∷ [];
    resumed = [];
  }
]

-- The callback always goes through when the gate itself calls, the counters have room, and the
-- chain's number is below 2 ^ 32 - 1. A timeout and a rejection are counted as rejected, and dispatch
-- nothing; an approval is counted as dispatched, and returns the call that was signed, followed by
-- `continue_chain` with the next number exactly when the signal names a successor. The intent is taken
-- off the pending ones in all cases.
pub on_intent_resumed_lem :
    (c : Call) (a : CallbackArgs) (signal : Result PromiseError ResumeSignal) (g : Gate)
    → c.predecessor ≡ c.current_account
    → g.intents_rejected + 1 < u64_mod
    → g.intents_dispatched + 1 < u64_mod
    → ((s : ResumeSignal) → signal ≡ ok s → successor s.sequence_number < u32_mod)
    → on_intent_resumed c a signal g ≡ ok (callback_done c a signal g)
unfolding on_intent_resumed assert_private resolve
on_intent_resumed_lem c a (err e) g own rejected dispatch small =
    rw ((text_eq_iff _ _).1 own) (rw (lt→ltb _ _ rejected))
on_intent_resumed_lem c a (ok signal) g own rejected dispatch small =
    elim (Bool-cases signal.approve) [
      | inl approved ↦ rw ((text_eq_iff _ _).1 own) (
          rw (approved, lt→ltb _ _ dispatch)
            (rw (chained_lem c a signal.sequence_number signal.next_intent_id (small signal refl))))
      | inr refused ↦ rw ((text_eq_iff _ _).1 own) (rw (refused, lt→ltb _ _ rejected))
    ]

-- A callback that goes through takes its intent off the pending ones, and changes nothing else but the
-- two counters.
pub on_intent_resumed-ok :
    (c : Call) (a : CallbackArgs) (signal : Result PromiseError ResumeSignal) (g : Gate)
    (d : Done PromiseOrValue)
    → on_intent_resumed c a signal g ≡ ok d
    → (dispatched_total rejected_total : ℕ) × (d.gate ≡ record g {
      pending = remove a.intent_id g.pending;
      intents_dispatched = dispatched_total;
      intents_rejected = rejected_total;
    })
unfolding on_intent_resumed assert_private resolve
on_intent_resumed-ok c a (err e) g d h =
    (g.intents_dispatched, g.intents_rejected + 1, ground arith)
on_intent_resumed-ok c a (ok signal) g d h = elim (Bool-cases signal.approve) [
  | inl approved ↦ (g.intents_dispatched + 1, g.intents_rejected, ground arith)
  | inr refused ↦ (g.intents_dispatched, g.intents_rejected + 1, ground arith)
]

chained-ok :
    (c : Call) (a : CallbackArgs) (seq next : Option ℕ) (r : PromiseOrValue)
    → chained c (dispatch_of a) seq next ≡ ok r
    → r ≡ dispatched c a seq next
unfolding chained next_seq
chained-ok c a seq none r h = cc
chained-ok c a none (some next_id) r h = cc
chained-ok c a (some s) (some next_id) r h = ground arith

-- Whatever a callback that goes through was given, it has done what its signal says.
pub on_intent_resumed-done :
    (c : Call) (a : CallbackArgs) (signal : Result PromiseError ResumeSignal) (g : Gate)
    (d : Done PromiseOrValue)
    → on_intent_resumed c a signal g ≡ ok d
    → d ≡ callback_done c a signal g
unfolding on_intent_resumed assert_private resolve
on_intent_resumed-done c a (err e) g d h = ground arith
on_intent_resumed-done c a (ok signal) g d h = elim (Bool-cases signal.approve) [
  | inl approved ↦ rw approved (
      let (own, h1) = require-eq-ok (text_eq c.predecessor c.current_account) _ _ h in
      let (total, room, h2) =
        >>=-eq-ok (or_panic (checked_add u64_mod g.intents_dispatched 1) counter_overflow) _
          (rw approved at h1) in
      let (r, made, h3) =
        >>=-eq-ok (chained c (dispatch_of a) signal.sequence_number signal.next_intent_id) _ h2 in
      let added : total ≡ g.intents_dispatched + 1 = ground arith in
      cc (h3, added, chained-ok c a signal.sequence_number signal.next_intent_id r made))
  | inr refused ↦ rw refused (ground arith)
]
