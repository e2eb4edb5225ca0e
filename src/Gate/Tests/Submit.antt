-- ===== src/Gate/Tests/Submit.antt =====
-- `submit_intent` (contracts/gate/src/lib.rs) at a concrete signed delegate.
use sequential_near.Prelude.{
  ℕ, Bool, ◌≢◌, ◌≡◌, ◌↔◌, refl, true, none, some, List, [], ◌∷◌, ok, err, arith, text_eq, text_key,
  nat_key,
}
use sequential_near.Prelude.Map.{contains_key, lookup, insert}
use sequential_near.Host.{Bytes, YieldId, Call}
use sequential_near.Borsh.Little.{little, little_laws}
use sequential_near.Nep366.{
  function_call, SignedDelegateAction, FunctionCallAction, write_signed, parse_signed, verify,
}
use sequential_near.Nep366.RoundTrip.{parse_signed-write_signed}
use sequential_near.Nep366.Tests.{signed, signed-IsSigned, set_nine, crypto}
use sequential_near.Gate.Nonce.{nonce_key}
use sequential_near.Gate.State.{Gate, Done, Promise, new, nonce_used}
use sequential_near.Gate.Submit.{submit_intent}
use sequential_near.Gate.Submit.Accepts.{callback_of, IsAccepted, submitted, submit_intent_iff}
use sequential_near.Gate.Submit.Refuses.{Refusal, submit_intent-err_iff}
use sequential_near.Gate.Views.{get_pending}
use sequential_near.Gate.Views.Listing.{view_of, submit_intent-get_pending}
use sequential_near.Gate.Trace.{Op, resume_intent, attempts}
use sequential_near.Gate.Trace.Replay.{submit_intent-once}
use sequential_near.Gate.Tests.{approver, relayer, served_call, call_by, with_relayer, json}

abbrev pub message : Bytes
message = write_signed little signed

abbrev pub payload : Bytes
payload = elim (json.args_to_vec (callback_of with_relayer signed.delegate_action set_nine)) [
  | none ↦ []
  | some bs ↦ bs
]

parse_signed-message : parse_signed little message ≡ ok signed
parse_signed-message = parse_signed-write_signed little_laws signed signed-IsSigned

verify-signed : verify little crypto signed ≡ true
unfolding verify
verify-signed = refl

abbrev pub answer : Done Promise
answer = submitted little crypto json (call_by relayer) message with_relayer signed set_nine payload

pub signed-IsAccepted :
    (alive : YieldId → Bool)
    → IsAccepted little crypto json
        (served_call relayer alive)
        message
        with_relayer
        signed
        set_nine
        payload
unfolding new contains_key lookup text_eq
signed-IsAccepted alive = record {
  relayer = refl;
  parsed = parse_signed-message;
  verified = verify-signed;
  live = omega arith;
  fresh = refl;
  single = refl;
  id_room = omega arith;
  count_room = omega arith;
  packed = refl;
}

submit_intent_iff_example :
    (submit_intent little crypto json (call_by relayer) message with_relayer ≡ ok answer) ↔ (
      (s : SignedDelegateAction) × (fc : FunctionCallAction) × (bytes : Bytes) × IsAccepted little
        crypto json
        (call_by relayer)
        message
        with_relayer
        s
        fc
        bytes
      × (answer ≡ submitted little crypto json (call_by relayer) message with_relayer s fc bytes))
submit_intent_iff_example =
    submit_intent_iff little crypto json (call_by relayer) message with_relayer answer

submit_intent-answer :
    submit_intent little crypto json (call_by relayer) message with_relayer ≡ ok answer
submit_intent-answer =
    (submit_intent_iff little crypto json (call_by relayer) message with_relayer answer).1
      (signed, set_nine, payload, signed-IsAccepted (λ y. true), refl)

abbrev used_up : Gate
used_up = record with_relayer {
  used_nonces = insert (nonce_key signed.delegate_action.sender_id 41) 90 [];
}

submit_intent-err_iff_example :
    (submit_intent little crypto json (call_by relayer) message used_up ≡ err nonce_used)
    ↔ Refusal little crypto json (call_by relayer) message used_up nonce_used
submit_intent-err_iff_example =
    submit_intent-err_iff little crypto json (call_by relayer) message used_up nonce_used

abbrev in_between : List (Call × Op)
in_between = (call_by approver, resume_intent 0 true) ∷ []

submit_intent-once_example : ¬ (
    submit_intent little crypto json
      (call_by relayer)
      message
      (attempts little crypto json in_between answer.gate)
    ≡ ok answer)
submit_intent-once_example =
    submit_intent-once little crypto json (call_by relayer) (call_by relayer) message message signed
      signed with_relayer answer answer in_between submit_intent-answer parse_signed-message
      parse_signed-message refl refl

submit_intent-get_pending_example :
    (fc : FunctionCallAction) × (signed.delegate_action.actions ≡ function_call fc ∷ [])
    × (get_pending with_relayer.next_intent_id answer.gate
        ≡ some (view_of with_relayer.next_intent_id (call_by relayer) signed fc))
    × ((other : ℕ)
        → other ≢ with_relayer.next_intent_id
        → get_pending other answer.gate ≡ get_pending other with_relayer)
submit_intent-get_pending_example =
    submit_intent-get_pending little crypto json (call_by relayer) message signed with_relayer
      answer submit_intent-answer parse_signed-message
