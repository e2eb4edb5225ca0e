-- ===== src/Gate/Tests/Chain.antt =====
-- The resume paths and the callback of the gate (contracts/gate/src/lib.rs), with two intents waiting.
use sequential_near.Prelude.{
  ◌-◌, text_eq, ℕ, ◌<◌, ◌≤◌, ◌≡◌, ◌↔◌, refl, false, Option, none, some, List, [], ◌∷◌, map, Result,
  ok, arith, All, of_ok_eq, nat_eq, if◌then◌else◌,
}
use sequential_near.Prelude.Word.{u32_mod}
use sequential_near.Prelude.Map.{contains_key, lookup}
use sequential_near.Host.{Bytes, AccountId, YieldId}
use sequential_near.Gate.Types.{PendingIntent, ResumeSignal}
use sequential_near.Gate.State.{Promise, Gate, Tier, Done, PromiseOrValue, new}
use sequential_near.Gate.Fees.{fee_for, find_tier}
use sequential_near.Gate.Chain.{resume_intent, resume_batch_chained, continue_chain}
use sequential_near.Gate.Chain.Steps.{
  single_signal, chain_signal, IsResume, resume_done, resume_intent_iff,
}
use sequential_near.Gate.Chain.Batch.{IsBatch, batch_done, resume_batch_chained_iff}
use sequential_near.Gate.Chain.Links.{IsLink, link_done, continue_chain_iff}
use sequential_near.Gate.Callback.{PromiseError, on_intent_resumed}
use sequential_near.Gate.Callback.Outcomes.{successor, callback_done, on_intent_resumed_lem}
use sequential_near.Gate.Run.{run_chain}
use sequential_near.Gate.Run.Links.{args_of, IsWaiting, call_of}
use sequential_near.Register.{Register, get}
use sequential_near.Gate.Run.Target.{set_value, execute, resume_batch_chained-sets}
use sequential_near.Gate.Run.Bound.{IsEnded, resume_batch_chained_ends}
use sequential_near.Gate.Run.Order.{IsCompleted, resume_batch_chained-runs}
use sequential_near.Gate.Tests.{
  approver, gate_account, call_by, intent, two_pending, json, json_laws, json_packs,
}

abbrev pub bytes_of : ResumeSignal → Bytes
bytes_of s = elim (json.signal_to_vec s) [ none ↦ [] | some bs ↦ bs ]

abbrev rejected : Done (Unit {0})
rejected =
    resume_done 1 false two_pending (3, 30_000_000_000_000_000_000_000) (intent 1)
      (bytes_of (single_signal false))

resume_intent_iff_example :
    (resume_intent json (call_by approver) 1 false two_pending ≡ ok rejected) ↔ (
      (t : Tier) × (p : PendingIntent) × (payload : Bytes) × IsResume json
        (call_by approver)
        1
        false
        two_pending
        t
        p
        payload
      × (rejected ≡ resume_done 1 false two_pending t p payload))
resume_intent_iff_example = resume_intent_iff json (call_by approver) 1 false two_pending rejected

abbrev pub tier_three : Tier
tier_three = (3, 30_000_000_000_000_000_000_000)

pub fee_for-pending : (n : ℕ) → n ≤ 3 → fee_for n two_pending ≡ ok tier_three
unfolding fee_for find_tier new
fee_for-pending n h = ground arith

abbrev started : Done (Unit {0})
started =
    batch_done 0 (1 ∷ []) two_pending tier_three (intent 0) (bytes_of (chain_signal 0 (1 ∷ [])))

started-IsBatch :
    IsBatch json
      (call_by approver)
      0
      (1 ∷ [])
      two_pending
      tier_three
      (intent 0)
      (bytes_of (chain_signal 0 (1 ∷ [])))
unfolding new contains_key lookup
started-IsBatch = record {
  approver = refl;
  idle = refl;
  tier = fee_for-pending 2 (omega arith);
  paid = omega arith;
  fits = omega arith;
  known = (refl, (refl, tt));
  count_room = omega arith;
  resumable = record { found = refl; packed = refl; alive = refl };
}

resume_batch_chained_iff_example :
    (resume_batch_chained json (call_by approver) (0 ∷ 1 ∷ []) two_pending ≡ ok started) ↔ (
      (t : Tier) × (p : PendingIntent) × (payload : Bytes) × IsBatch json
        (call_by approver)
        0
        (1 ∷ [])
        two_pending
        t
        p
        payload
      × (started ≡ batch_done 0 (1 ∷ []) two_pending t p payload))
resume_batch_chained_iff_example =
    resume_batch_chained_iff json (call_by approver) 0 (1 ∷ []) two_pending started

resume_batch_chained-started :
    resume_batch_chained json (call_by approver) (0 ∷ 1 ∷ []) two_pending ≡ ok started
resume_batch_chained-started =
    (resume_batch_chained_iff json (call_by approver) 0 (1 ∷ []) two_pending started).1
      (tier_three, intent 0, bytes_of (chain_signal 0 (1 ∷ [])), started-IsBatch, refl)

abbrev in_flight : Gate
in_flight = record two_pending { batch_chain_tail = 1 ∷ []; active_batch_id = 1 }

abbrev continued : Done PromiseOrValue
continued = link_done 1 1 [] in_flight (intent 1) (bytes_of (chain_signal 1 []))

continue_chain_iff_example :
    (continue_chain json (call_by gate_account) 1 1 in_flight ≡ ok continued) ↔ (
      (rest : List ℕ) × (p : PendingIntent) × (payload : Bytes) × IsLink json
        (call_by gate_account)
        1
        1
        rest
        in_flight
        p
        payload
      × (continued ≡ link_done 1 1 rest in_flight p payload))
continue_chain_iff_example = continue_chain_iff json (call_by gate_account) 1 1 in_flight continued

abbrev approved : Result PromiseError ResumeSignal
approved = ok (chain_signal 0 (1 ∷ []))

approved_small : (s : ResumeSignal) → approved ≡ ok s → successor s.sequence_number < u32_mod
approved_small s e =
    of_ok_eq (λ (x : ResumeSignal). successor x.sequence_number < u32_mod) e (omega arith)

on_intent_resumed_lem_example :
    on_intent_resumed (call_by gate_account) (args_of 0 (intent 0)) approved two_pending
    ≡ ok (callback_done (call_by gate_account) (args_of 0 (intent 0)) approved two_pending)
unfolding new
on_intent_resumed_lem_example =
    on_intent_resumed_lem (call_by gate_account) (args_of 0 (intent 0)) approved two_pending refl
      (omega arith) (omega arith) approved_small

-- The runtime holds the arguments of the two yields.
abbrev held : YieldId → Option Bytes
held y =
    if nat_eq y 50
    then json.args_to_vec (args_of 0 (intent 0))
    else if nat_eq y 51
    then json.args_to_vec (args_of 1 (intent 1))
    else none

abbrev both : List ℕ
both = 0 ∷ 1 ∷ []

both_wait : All (IsWaiting json (call_by gate_account) held intent two_pending) both
unfolding lookup new
both_wait = (
  record { stored = refl; alive = refl; packed = (args_bytes 0, refl, refl) },
  (record { stored = refl; alive = refl; packed = (args_bytes 1, refl, refl) }, tt),
)
  where
    args_bytes : ℕ → Bytes
    args_bytes id = elim (json.args_to_vec (args_of id (intent id))) [ none ↦ [] | some bs ↦ bs ]

resume_batch_chained-runs_example :
    (g' : Gate) × (run_chain json (call_by gate_account) held 2 started.resumed started.gate
      ≡ ok (g', map (call_of json (call_by gate_account) held intent) both))
    × IsCompleted both two_pending g'
unfolding new
resume_batch_chained-runs_example =
    resume_batch_chained-runs json (call_by approver) (call_by gate_account) held intent 0 (1 ∷ [])
      2 two_pending started json_laws json_packs refl resume_batch_chained-started
      ((omega arith, tt), (tt, tt)) both_wait (omega arith) (omega arith) (omega arith)
      (omega arith)

resume_batch_chained_ends_example :
    IsEnded 2 (run_chain json (call_by gate_account) held 2 started.resumed started.gate)
resume_batch_chained_ends_example =
    resume_batch_chained_ends json (call_by approver) (call_by gate_account) held 0 (1 ∷ []) 2
      two_pending started resume_batch_chained-started (omega arith)

-- One decimal digit as an argument of `set`.
abbrev digit : Bytes → Option ℕ
digit (b ∷ []) = some (b - b'0')
digit _ = none

abbrev register : AccountId
register = b'r' ∷ b'e' ∷ b'g' ∷ []

abbrev seven_set : Register
seven_set = record { current = 7; log = 7 ∷ []; set_count = 1 }

both_set :
    All
      (λ id.
        set_value register digit (call_of json (call_by gate_account) held intent id) ≡ some id)
      both
unfolding text_eq
both_set = (refl, (refl, tt))

resume_batch_chained-sets_example :
    (g' : Gate) × (calls : List Promise) × (r' : Register) × (run_chain json
        (call_by gate_account)
        held
        2
        started.resumed
        started.gate
      ≡ ok (g', calls))
    × (execute register digit calls seven_set ≡ some r')
    × (get r' ≡ (1, 7 ∷ 0 ∷ 1 ∷ [], 3))
unfolding new
resume_batch_chained-sets_example =
    resume_batch_chained-sets json (call_by approver) (call_by gate_account) held intent 0 (1 ∷ [])
      2 two_pending started register digit (λ id. id) seven_set json_laws json_packs refl
      resume_batch_chained-started ((omega arith, tt), (tt, tt)) both_wait (omega arith)
      (omega arith) (omega arith) (omega arith) both_set (omega arith)
