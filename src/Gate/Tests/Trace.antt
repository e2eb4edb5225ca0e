-- ===== src/Gate/Tests/Trace.antt =====
-- Sequences of calls of the gate (contracts/gate/src/lib.rs) at concrete values.
use sequential_near.Prelude.{
  ◌++◌, IsDistinct, ◌≡◌, ◌≢◌, refl, true, false, List, [], ◌∷◌, ok, arith, All, text_eq,
  text_eq_iff,
}
use sequential_near.Prelude.Map.{lookup, contains_key}
use sequential_near.Host.{AccountId, Call}
use sequential_near.Borsh.Little.{little, little_laws, le_write}
use sequential_near.Nep366.{
  write_signed, write_delegate, write_action, write_function_call, write_public_key,
  write_signature,
}
use sequential_near.Nep366.Tests.{crypto}
use sequential_near.Gate.State.{Gate, Done, new, assert_owner}
use sequential_near.Gate.Admin
use sequential_near.Gate.Chain.Steps.{chain_signal}
use sequential_near.Gate.Chain.Batch.{IsBatch, batch_done, resume_batch_chained_iff}
use sequential_near.Gate.Fees.Ladder.{default_fee_tiers-IsLadder}
use sequential_near.Gate.Views.{list_pending}
use sequential_near.Gate.Views.Listing.{list_pending-IsDistinct}
use sequential_near.Gate.Trace.{
  Op, apply, attempts, add_relayer, set_approver, withdraw_fees, resume_intent, continue_chain,
  reset_batch_tail, submit_intent,
}
use sequential_near.Gate.Trace.Queue.{links, queued, links-queued}
use sequential_near.Gate.Trace.Widths.{IsTyped, IsTypedOp}
use sequential_near.Gate.Trace.Widths.Sequences.{attempts-IsTyped}
use sequential_near.Gate.Trace.Sound.{IsSound, attempts-IsSound}
use sequential_near.Gate.Trace.Roles.{HasRole, apply-HasRole, SameTerms, attempts-SameTerms}
use sequential_near.Gate.Trace.Stuck.{IsStuck, Refuses, stuck_until_reset, repeated_id_stuck}
use sequential_near.Gate.Tests.{
  owner, approver, relayer, gate_account, call_by, fresh, intent, two_pending, json,
}
use sequential_near.Gate.Tests.Chain.{bytes_of, tier_three, fee_for-pending}
use sequential_near.Gate.Tests.Submit.{message}

abbrev calls : List (Call × Op)
calls =
    (call_by owner, add_relayer relayer)
    ∷ (call_by relayer, submit_intent message)
    ∷ (call_by approver, resume_intent 0 true)
    ∷ (call_by owner, withdraw_fees 5 owner)
    ∷ []

attempts-IsSound_example : IsSound (attempts little crypto json calls (new owner approver))
attempts-IsSound_example = attempts-IsSound little crypto json owner approver calls

list_pending-IsDistinct_lem :
    IsDistinct (list_pending (attempts little crypto json calls (new owner approver)))
list_pending-IsDistinct_lem = list_pending-IsDistinct little crypto json owner approver calls

abbrev with_approver : Gate
with_approver = record fresh { approver_id = relayer }

apply-set_approver :
    apply little crypto json (call_by owner) (set_approver relayer) fresh ≡ ok with_approver
unfolding apply Admin.set_approver assert_owner new text_eq
apply-set_approver = refl

apply-HasRole_example : HasRole (call_by owner) (set_approver relayer) fresh
apply-HasRole_example =
    apply-HasRole little crypto json (call_by owner) (set_approver relayer) fresh with_approver
      apply-set_approver

abbrev others : List (Call × Op)
others =
    (call_by relayer, set_approver relayer)
    ∷ (call_by relayer, submit_intent message)
    ∷ (call_by approver, withdraw_fees 5 approver)
    ∷ []

differs : (s t : AccountId) → text_eq s t ≡ false → s ≢ t
differs s t h e = cc (h, (text_eq_iff s t).1 e)

attempts-SameTerms_example : SameTerms fresh (attempts little crypto json others fresh)
unfolding new text_eq
attempts-SameTerms_example =
    attempts-SameTerms little crypto json fresh others
      (differs relayer owner refl, (differs relayer owner refl, (differs approver owner refl, tt)))

-- The second intent of the batch timed out, and the tail still names it.
abbrev timed_out : Gate
timed_out = record two_pending { pending = []; batch_chain_tail = 1 ∷ []; active_batch_id = 1 }

timed_out-IsStuck : IsStuck 1 [] timed_out
unfolding lookup
timed_out-IsStuck = record { front = refl; gone = refl; given = omega arith }

abbrev no_reset : List (Call × Op)
no_reset =
    (call_by gate_account, continue_chain 1 1) ∷ (call_by approver, resume_intent 1 true) ∷ []

no_reset-calls : All (λ op. op.1 ≢ reset_batch_tail) no_reset
no_reset-calls = ((λ e. cc e), ((λ e. cc e), tt))

stuck_until_reset_example : Refuses json (attempts little crypto json no_reset timed_out)
stuck_until_reset_example =
    stuck_until_reset little crypto json 1 [] timed_out no_reset timed_out-IsStuck no_reset-calls

two_pending-IsSound : IsSound two_pending
unfolding new lookup
two_pending-IsSound = record {
  ladder = default_fee_tiers-IsLadder;
  covered = record { withdrawn_le = omega arith; collected_u128 = omega arith };
  counted = refl;
  id_u64 = omega arith;
  below = λ id h. ground arith;
}

abbrev twice : Done (Unit {0})
twice =
    batch_done 0 (0 ∷ 1 ∷ []) two_pending tier_three (intent 0)
      (bytes_of (chain_signal 0 (0 ∷ 1 ∷ [])))

twice-IsBatch :
    IsBatch json
      (call_by approver)
      0
      (0 ∷ 1 ∷ [])
      two_pending
      tier_three
      (intent 0)
      (bytes_of (chain_signal 0 (0 ∷ 1 ∷ [])))
unfolding new contains_key lookup
twice-IsBatch = record {
  approver = refl;
  idle = refl;
  tier = fee_for-pending 3 (omega arith);
  paid = omega arith;
  fits = omega arith;
  known = (refl, (refl, (refl, tt)));
  count_room = omega arith;
  resumable = record { found = refl; packed = refl; alive = refl };
}

repeated_id_stuck_example : Refuses json (attempts little crypto json no_reset twice.gate)
repeated_id_stuck_example =
    repeated_id_stuck little crypto json (call_by approver) 0 (1 ∷ []) two_pending twice no_reset
      two_pending-IsSound
      ((resume_batch_chained_iff json (call_by approver) 0 (0 ∷ 1 ∷ []) two_pending twice).1
        (tier_three, intent 0, bytes_of (chain_signal 0 (0 ∷ 1 ∷ [])), twice-IsBatch, refl))
      no_reset-calls

abbrev batch_calls : List (Call × Op)
batch_calls =
    (call_by approver, Op.resume_batch_chained (0 ∷ 1 ∷ []))
    ∷ (call_by approver, resume_intent 0 true)
    ∷ (call_by gate_account, continue_chain 1 1)
    ∷ []

batch_calls-no_reset : All (λ op. op.1 ≢ reset_batch_tail) batch_calls
batch_calls-no_reset = ((λ e. cc e), ((λ e. cc e), ((λ e. cc e), tt)))

links-queued_example :
    links little crypto json batch_calls two_pending
      ++ (attempts little crypto json batch_calls two_pending).batch_chain_tail
    ≡ two_pending.batch_chain_tail ++ queued little crypto json batch_calls two_pending
links-queued_example = links-queued little crypto json batch_calls two_pending batch_calls-no_reset

calls-AreTyped : All IsTypedOp calls
unfolding write_signed write_delegate write_action write_function_call write_public_key
    write_signature le_write
calls-AreTyped = (tt, ((omega arith, omega arith), (tt, (tt, tt))))

attempts-IsTyped_example : IsTyped (attempts little crypto json calls (new owner approver))
attempts-IsTyped_example =
    attempts-IsTyped little_laws crypto json owner approver calls calls-AreTyped
