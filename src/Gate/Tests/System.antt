-- ===== src/Gate/Tests/System.antt =====
-- The gate's system (contracts/gate/src/lib.rs) through the life of one intent.
use sequential_near.Prelude.{
  Holds, ◌+◌, ◌≤◌, ◌<◌, ◌≡◌, some, ◌⊎◌, refl, inl, true, [], ◌∷◌, ok, arith, of_ok_eq, text_eq,
  text_key, nat_key,
}
use sequential_near.Prelude.Map.{lookup, insert}
use sequential_near.Prelude.Word.{u32_mod}
use sequential_near.Host.{Bytes, AccountId, Call}
use sequential_near.Borsh.Little.{little}
use sequential_near.Nep366.Tests.{signed, set_nine, crypto}
use sequential_near.Gate.Types.{PendingIntent, ResumeSignal}
use sequential_near.Gate.State.{
  Tier, Done, Promise, function_call, PromiseOrValue, new, assert_owner,
}
use sequential_near.Gate.Submit.Accepts.{submit_intent_iff, intent_of, callback_of}
use sequential_near.Gate.Chain.Steps.{IsResume, single_signal, resume_done, resume_intent_iff}
use sequential_near.Gate.Callback.Outcomes.{callback_done}
use sequential_near.Gate.Fees.{fee_for, find_tier}
use sequential_near.Gate.Trace.{add_relayer, apply}
use sequential_near.Gate.Admin
use sequential_near.Gate.System.{
  System, fire, dispatched, start, take_yield, is_held, IsServed, Move, Moves, rests, moves,
  calls_back, submits, resumes, manages, runs, Reach, starts, steps,
}
use sequential_near.Gate.System.Changes.{IsAtMost}
use sequential_near.Gate.System.Once.{IsPlaced, Reach-IsPlaced}
use sequential_near.Gate.System.Yields.{call_of_intent, IsMatched, Reach-IsMatched}
use sequential_near.Gate.System.Authority.{IsAuthorized, dispatched-IsAuthorized}
use sequential_near.Gate.System.Numbers.{answer-ok}
use sequential_near.Gate.System.Drain.{measure, Moves-bounded}
use sequential_near.Gate.System.Dispatches.{approved-dispatched}
use sequential_near.Gate.System.Ends.{IsOver, drained-IsOver, every_intent_ends, never_stuck}
use sequential_near.Gate.Tests.{
  owner, approver, relayer, gate_account, served_call, with_relayer, json, json_laws,
}
use sequential_near.Gate.Tests.Chain.{bytes_of}
use sequential_near.Gate.Tests.Submit.{
  message, payload, answer as submitted_done, signed-IsAccepted,
}

abbrev pub new_system : System
new_system = start owner approver

abbrev pub served : AccountId → System → Call
served who s = served_call who (λ y. is_held y s.held)

pub served-IsServed : (who : AccountId) (s : System) → IsServed gate_account (served who s) s
served-IsServed who s = record { account = refl; alive = λ y. refl }

abbrev IsReached : System → Type 0
IsReached s = Reach little crypto json gate_account owner approver s

-- The owner has added the relayer.
abbrev pub ready : System
ready = record new_system { gate = with_relayer }

ready-IsReached : IsReached ready
unfolding apply Admin.add_relayer assert_owner new text_eq insert
ready-IsReached = steps starts (
    manages new_system (served owner new_system) (add_relayer relayer) with_relayer
      (served-IsServed owner new_system) tt refl)

-- The intent waits.
abbrev pub waiting : System
waiting = record ready { gate = submitted_done.gate; held = (7, payload) ∷ [] }

waiting-IsReached : IsReached waiting
unfolding lookup new
waiting-IsReached = steps ready-IsReached (
    submits ready (served relayer ready) message submitted_done (served-IsServed relayer ready)
      (λ id p found. cc found)
      ((submit_intent_iff little crypto json (served relayer ready) message with_relayer
          submitted_done).1
        (signed, set_nine, payload, signed-IsAccepted (λ y. is_held y []), refl)))

abbrev pub tier : Tier
tier = (3, 30_000_000_000_000_000_000_000)

abbrev pub stored : PendingIntent
stored = intent_of (served relayer ready) signed.delegate_action set_nine

abbrev approval : Bytes
approval = bytes_of (single_signal true)

abbrev resume_answer : Done (Unit {0})
resume_answer = resume_done 0 true waiting.gate tier stored approval

waiting-IsResume : IsResume json (served approver waiting) 0 true waiting.gate tier stored approval
unfolding new lookup insert is_held take_yield fee_for find_tier
waiting-IsResume = record {
  approver = refl;
  tier = refl;
  paid = omega arith;
  fits = omega arith;
  resumable = record { found = refl; packed = refl; alive = refl };
}

-- The approver has resumed it, and its callback is due.
abbrev due : System
due = record waiting {
  gate = resume_answer.gate;
  held = [];
  callbacks = (payload, ok (single_signal true)) ∷ [];
  approvals = 0 ∷ [];
}

due-IsReached : IsReached due
unfolding take_yield
due-IsReached = steps waiting-IsReached (
    resumes waiting (served approver waiting) 0 true resume_answer
      (served-IsServed approver waiting)
      ((resume_intent_iff json (served approver waiting) 0 true waiting.gate resume_answer).1
        (tier, stored, approval, waiting-IsResume, refl)))

abbrev the_call : Promise
the_call =
    function_call (b'r' ∷ b'e' ∷ b'g' ∷ []) (b's' ∷ b'e' ∷ b't' ∷ []) (b'9' ∷ []) 0
      30_000_000_000_000

abbrev callback_answer : Done PromiseOrValue
callback_answer =
    callback_done (served gate_account due)
      (callback_of with_relayer signed.delegate_action set_nine) (ok (single_signal true)) due.gate

-- The call is made.
abbrev made : System
made = record due {
  gate = callback_answer.gate;
  callbacks = [];
  settled = (payload, dispatched the_call) ∷ [];
}

due-moves : Move json gate_account due made
unfolding new
due-moves =
    calls_back due [] [] payload (ok (single_signal true)) (served gate_account due) callback_answer
      refl (record { served = served-IsServed gate_account due; own = refl })
      (answer-ok little crypto json due payload (ok (single_signal true)) (served gate_account due)
        (callback_of with_relayer signed.delegate_action set_nine)
        (json_laws.args_law (callback_of with_relayer signed.delegate_action set_nine) payload refl)
        refl (omega arith)
        (λ given is. of_ok_eq (λ (x : ResumeSignal). IsAtMost 0 x.sequence_number) is tt))

made-IsReached : IsReached made
made-IsReached = steps due-IsReached (runs due-moves)

Reach-IsPlaced_example : IsPlaced little crypto json made
Reach-IsPlaced_example =
    Reach-IsPlaced little crypto json gate_account owner approver json_laws made-IsReached

Reach-IsMatched_example : IsMatched json waiting
Reach-IsMatched_example =
    Reach-IsMatched little crypto json gate_account owner approver json_laws waiting-IsReached

dispatched-IsAuthorized_example :
    IsAuthorized little crypto json gate_account payload the_call made-IsReached
dispatched-IsAuthorized_example =
    dispatched-IsAuthorized little crypto json gate_account owner approver payload the_call
      json_laws made made-IsReached (inl refl)

Moves-bounded_lem : 1 + measure made ≤ measure due
Moves-bounded_lem = Moves-bounded json gate_account (moves due-moves (rests made))

next_small : waiting.gate.next_intent_id < u32_mod
unfolding new
next_small = omega arith

every_intent_ends_example :
    (t : System) × Moves json gate_account waiting t
    × IsOver little crypto json gate_account owner approver t
every_intent_ends_example =
    every_intent_ends little crypto json gate_account owner approver json_laws waiting
      waiting-IsReached next_small

never_stuck_example :
    IsOver little crypto json gate_account owner approver made
    ⊎ ((u : System) × Move json gate_account made u)
never_stuck_example =
    never_stuck little crypto json gate_account owner approver json_laws due made due-IsReached
      next_small (moves due-moves (rests made))

made-IsOver : IsOver little crypto json gate_account owner approver made
made-IsOver =
    drained-IsOver little crypto json gate_account owner approver json_laws made-IsReached
      next_small (record { held = refl; callbacks = refl; links = refl })

woken-Moves :
    Moves json gate_account
      (fire json resume_answer.resumed
        (record waiting { gate = resume_answer.gate; approvals = 0 ∷ waiting.approvals }))
      made
unfolding take_yield
woken-Moves = moves due-moves (rests made)

approved-dispatched_example :
    (p : PendingIntent) × (bytes : Bytes) × (lookup 0 waiting.gate.pending ≡ some p)
    × Holds (bytes, dispatched (call_of_intent p)) made.settled
approved-dispatched_example =
    approved-dispatched little crypto json gate_account owner approver json_laws waiting made
      waiting-IsReached (served approver waiting) 0 resume_answer (served-IsServed approver waiting)
      ((resume_intent_iff json (served approver waiting) 0 true waiting.gate resume_answer).1
        (tier, stored, approval, waiting-IsResume, refl))
      woken-Moves made-IsOver
