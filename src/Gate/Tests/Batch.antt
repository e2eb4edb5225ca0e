-- ===== src/Gate/Tests/Batch.antt =====
-- The gate's system (contracts/gate/src/lib.rs) through the first link of a batch of two intents.
use sequential_near.Prelude.{
  ◌≡◌, ◌⊎◌, refl, inl, some, none, [], ◌∷◌, ok, err, arith, of_ok_eq, text_eq, text_key, nat_key,
  All, List, ℕ, ◌++◌,
}
use sequential_near.Prelude.Map.{lookup, insert, contains_key, remove}
use sequential_near.Host.{Bytes, Call}
use sequential_near.Borsh.Little.{little, little_laws}
use sequential_near.Nep366.{SignedDelegateAction, write_signed, verify}
use sequential_near.Nep366.RoundTrip.{parse_signed-write_signed}
use sequential_near.Nep366.Tests.{
  signed, signed-IsSigned, set_nine, crypto, next_delegate, next_delegate-IsDelegate,
}
use sequential_near.Gate.Nonce.{nonce_key, decimal}
use sequential_near.Gate.Types.{ResumeSignal, PendingIntent}
use sequential_near.Gate.State.{Panic, Tier, Done, Promise, PromiseOrValue, new, assert_owner}
use sequential_near.Gate.Chain.{continue_chain, resume_batch_chained}
use sequential_near.Gate.Submit.Accepts.{
  IsAccepted, submitted, submit_intent_iff, callback_of, intent_of,
}
use sequential_near.Gate.Chain.Steps.{chain_signal}
use sequential_near.Gate.Chain.Batch.{IsBatch, batch_done, resume_batch_chained_iff}
use sequential_near.Gate.Callback.Outcomes.{callback_done}
use sequential_near.Gate.Fees.{fee_for, find_tier}
use sequential_near.Gate.Trace.{add_relayer, apply}
use sequential_near.Gate.Admin
use sequential_near.Gate.System.{
  System, fate_of, take_yield, is_held, calls_back, submits, starts_batch, manages, runs, Move,
  continues,
}
use sequential_near.Gate.System.Changes.{IsAtMost}
use sequential_near.Gate.System.Numbers.{answer-ok}
use sequential_near.Gate.System.InFlight.{ReachKept, starts, steps, IsHindered, link_meets_tail}
use sequential_near.Gate.Tests.{
  owner, approver, relayer, gate_account, with_relayer, json, json_laws,
}
use sequential_near.Gate.Chain.Links.{IsLink, link_done, continue_chain_iff}
use sequential_near.Gate.System.Order.{InBatch, opens, goes_on, batch_in_order}
use sequential_near.Gate.System.Progress.{IsMade}
use sequential_near.Gate.Tests.Chain.{bytes_of}
use sequential_near.Gate.Tests.Submit.{
  message, payload, answer as submitted_done, signed-IsAccepted,
}
use sequential_near.Gate.Tests.System.{served, served-IsServed, new_system, ready, waiting, stored}

abbrev IsKept : System → Type 0
IsKept s = ReachKept little crypto json gate_account owner approver s

ready-IsKept : IsKept ready
unfolding apply Admin.add_relayer assert_owner new text_eq insert
ready-IsKept =
    steps starts
      (manages new_system (served owner new_system) (add_relayer relayer) with_relayer
        (served-IsServed owner new_system) tt refl)
      (λ is. cc is)

waiting-IsKept : IsKept waiting
unfolding lookup new
waiting-IsKept =
    steps ready-IsKept
      (submits ready (served relayer ready) message submitted_done (served-IsServed relayer ready)
        (λ id p found. cc found)
        ((submit_intent_iff little crypto json (served relayer ready) message with_relayer
            submitted_done).1
          (signed, set_nine, payload, signed-IsAccepted (λ y. is_held y []), refl)))
      (λ never. never)

-- The second intent.
abbrev next_signed : SignedDelegateAction
next_signed = record signed { delegate_action = next_delegate }

abbrev next_message : Bytes
next_message = write_signed little next_signed

abbrev next_call : Call
next_call = record (served relayer waiting) { fresh_yield = 8 }

abbrev next_payload : Bytes
next_payload = elim (json.args_to_vec (callback_of waiting.gate next_delegate set_nine)) [
  | none ↦ []
  | some bs ↦ bs
]

abbrev next_done : Done Promise
next_done =
    submitted little crypto json next_call next_message waiting.gate next_signed set_nine
      next_payload

next_signed-IsAccepted :
    IsAccepted little crypto json next_call next_message waiting.gate next_signed set_nine
      next_payload
unfolding new contains_key lookup text_eq verify insert nonce_key decimal
next_signed-IsAccepted = record {
  relayer = refl;
  parsed = parse_signed-write_signed little_laws next_signed (record {
    delegate_valid = next_delegate-IsDelegate;
    signature_valid = signed-IsSigned.signature_valid;
  });
  verified = refl;
  live = omega arith;
  fresh = refl;
  single = refl;
  id_room = omega arith;
  count_room = omega arith;
  packed = refl;
}

abbrev both : System
both = record waiting { gate = next_done.gate; held = (8, next_payload) ∷ waiting.held }

both-IsKept : IsKept both
unfolding lookup new insert
both-IsKept =
    steps waiting-IsKept
      (submits waiting next_call next_message next_done
        (record { account = refl; alive = λ y. refl }) (λ id p found. ground arith)
        ((submit_intent_iff little crypto json next_call next_message waiting.gate next_done).1
          (next_signed, set_nine, next_payload, next_signed-IsAccepted, refl)))
      (λ never. never)

abbrev first_signal : ResumeSignal
first_signal = chain_signal 0 (1 ∷ [])

abbrev batch_tier : Tier
batch_tier = (3, 30_000_000_000_000_000_000_000)

abbrev batch_answer : Done (Unit {0})
batch_answer = batch_done 0 (1 ∷ []) both.gate batch_tier stored (bytes_of first_signal)

both-IsBatch :
    IsBatch json
      (served approver both)
      0
      (1 ∷ [])
      both.gate
      batch_tier
      stored
      (bytes_of first_signal)
unfolding new contains_key lookup insert is_held take_yield fee_for find_tier
both-IsBatch = record {
  approver = refl;
  idle = refl;
  tier = refl;
  paid = omega arith;
  fits = omega arith;
  known = (refl, (refl, tt));
  count_room = omega arith;
  resumable = record { found = refl; packed = refl; alive = refl };
}

-- The approver has started the batch, and the first callback is due.
abbrev begun : System
begun = record both {
  gate = batch_answer.gate;
  held = (8, next_payload) ∷ [];
  callbacks = (payload, ok first_signal) ∷ [];
  approvals = 0 ∷ 1 ∷ [];
}

begun_by : resume_batch_chained json (served approver both) (0 ∷ 1 ∷ []) both.gate ≡ ok batch_answer
begun_by =
    (resume_batch_chained_iff json (served approver both) 0 (1 ∷ []) both.gate batch_answer).1
      (batch_tier, stored, bytes_of first_signal, both-IsBatch, refl)

begun-IsKept : IsKept begun
unfolding take_yield
begun-IsKept =
    steps both-IsKept
      (starts_batch both (served approver both) (0 ∷ 1 ∷ []) batch_answer
        (served-IsServed approver both) begun_by)
      (λ never. never)

abbrev first_answer : Done PromiseOrValue
first_answer =
    callback_done (served gate_account begun)
      (callback_of with_relayer signed.delegate_action set_nine) (ok first_signal) begun.gate

-- Its call is made, and the link to the second intent is due.
abbrev linked : System
linked = record begun {
  gate = first_answer.gate;
  callbacks = [];
  links = (1, 1) ∷ [];
  settled = (payload, fate_of first_answer.result) ∷ [];
}

begun-moves : Move json gate_account begun linked
unfolding new
begun-moves =
    calls_back begun [] [] payload (ok first_signal) (served gate_account begun) first_answer refl
      (record { served = served-IsServed gate_account begun; own = refl })
      (answer-ok little crypto json begun payload (ok first_signal) (served gate_account begun)
        (callback_of with_relayer signed.delegate_action set_nine)
        (json_laws.args_law (callback_of with_relayer signed.delegate_action set_nine) payload refl)
        refl (omega arith)
        (λ given is.
          of_ok_eq (λ (x : ResumeSignal). IsAtMost 0 x.sequence_number) is (omega arith)))

linked-IsKept : IsKept linked
linked-IsKept = steps begun-IsKept (runs begun-moves) (λ never. never)

link_meets_tail_example :
    (linked.links ≡ (1, 1) ∷ [])
    × (((d : Done PromiseOrValue) × (continue_chain json
              (served gate_account linked)
              1
              1
              linked.gate
            ≡ ok d))
        ⊎ ((e : Panic) × (continue_chain json (served gate_account linked) 1 1 linked.gate ≡ err e)
            × IsHindered json linked 1 e))
link_meets_tail_example =
    link_meets_tail little crypto json json_laws gate_account linked (served gate_account linked) 1
      1 linked-IsKept (record { served = served-IsServed gate_account linked; own = refl })
      (inl refl)

abbrev IsInBatch : System → Type 0
IsInBatch s = InBatch little crypto json gate_account owner approver (0 ∷ 1 ∷ []) s

begun-IsInBatch : IsInBatch begun
unfolding take_yield
begun-IsInBatch =
    opens both (served approver both) batch_answer both-IsKept (served-IsServed approver both)
      begun_by

linked-IsInBatch : IsInBatch linked
unfolding new
linked-IsInBatch = goes_on begun-IsInBatch (λ e. cc e) (runs begun-moves) (λ never. never)

-- The link goes through, and takes the second id off.
abbrev second_payload : Bytes
second_payload = bytes_of (chain_signal 1 [])

abbrev second_intent : PendingIntent
second_intent = intent_of next_call next_delegate set_nine

abbrev link_answer : Done PromiseOrValue
link_answer = link_done 1 1 [] linked.gate second_intent second_payload

linked-IsLink :
    IsLink json (served gate_account linked) 1 1 [] linked.gate second_intent second_payload
unfolding new lookup insert remove is_held take_yield
linked-IsLink = record {
  private = refl;
  front = refl;
  resumable = record { found = refl; packed = refl; alive = refl };
}

abbrev followed : System
followed = record linked {
  gate = link_answer.gate;
  held = [];
  callbacks = (next_payload, ok (chain_signal 1 [])) ∷ [];
  links = [];
}

followed-IsInBatch : IsInBatch followed
unfolding new take_yield
followed-IsInBatch =
    goes_on linked-IsInBatch (λ e. cc e)
      (runs (
        continues linked [] [] 1 1 (served gate_account linked) link_answer refl
          (record { served = served-IsServed gate_account linked; own = refl })
          ((continue_chain_iff json (served gate_account linked) 1 1 linked.gate link_answer).1
            ([], second_intent, second_payload, linked-IsLink, refl))))
      (λ never. never)

batch_in_order_example :
    (former : List ℕ) × (latest : ℕ) × (0 ∷ 1 ∷ []
      ≡ former ++ latest ∷ followed.gate.batch_chain_tail)
    × All (IsMade json followed.settled) former
batch_in_order_example =
    batch_in_order little crypto json json_laws gate_account (0 ∷ 1 ∷ []) followed
      followed-IsInBatch
