-- ===== src/Gate/Chain.antt =====
-- The resume paths of the gate (contracts/gate/src/lib.rs): one intent, a batch, and the next intent
-- of a batch.
pub mod Steps
pub mod Batch
pub mod Links
use sequential_near.Prelude.{
  ℕ, ◌%◌, ◌^◌, Bool, true, not, Option, none, some, List, [], ◌∷◌, Result, ok, err, ◌>>=◌, ◌>>◌,
  require, or_panic, first, tail, length, nat_eq, ◌==◌, nat_key, text_key,
}
use sequential_near.Prelude.Map.{lookup, remove, contains_key}
use sequential_near.Prelude.Word.{u64_mod, checked_add}
use sequential_near.Host.{Bytes, YieldId, Call}
use sequential_near.Gate.Types.{PendingIntent, ResumeSignal, Json}
use sequential_near.Gate.State.{
  Gate, Panic, PromiseOrValue, value, Done, Handler, not_approver, unknown_intent, resume_failed,
  payload_serialization, empty_batch, batch_in_flight, empty_tail, tail_mismatch, counter_overflow,
  intent_resumed, batch_started, chain_continued, assert_private,
}
use sequential_near.Gate.Fees.{is_empty, charge_fee}

-- The part that the three paths share: `pending.remove(&id)`, the payload, and `yield_id.resume`.
-- The answer is the state without the intent, and the yield with its payload.
unfoldable pub resume_pending :
    Json → Call → ℕ → ResumeSignal → Gate → Result Panic (Gate × (YieldId × Bytes))
resume_pending j c id signal g = do
  pending ← or_panic (lookup id g.pending) (unknown_intent id)
  payload ← or_panic (j.signal_to_vec signal) payload_serialization
  require (c.resumable pending.yield_id) resume_failed
  ok (record g { pending = remove id g.pending }, (pending.yield_id, payload))

-- `Gate::resume_intent`
unfoldable pub resume_intent : Json → Call → ℕ → Bool → Handler (Unit {0})
resume_intent j c intent_id approve g = do
  require (c.predecessor == g.approver_id) not_approver
  (g, charged) ← charge_fee c 1 g
  let signal : ResumeSignal = record {
    approve = approve;
    sequence_number = none;
    next_intent_id = none;
  }
  (g, resumed) ← resume_pending j c intent_id signal g
  ok (record {
    result = tt;
    gate = g;
    events = charged ∷ intent_resumed intent_id approve ∷ [];
    resumed = resumed ∷ [];
  })

-- The loop over the ids of a batch, before any change: the first id that is not pending panics.
unfoldable pub check_pending : List ℕ → Gate → Result Panic (Unit {0})
check_pending [] g = ok tt
check_pending (id ∷ ids) g = do
  require (contains_key id g.pending) (unknown_intent id)
  check_pending ids g

-- The part of `resume_batch_chained` behind the fee: the ids are checked, the batch is numbered, its
-- tail is stored, and its first intent is resumed.
unfoldable pub start_batch :
    Json → Call → ℕ → List ℕ → Gate → Result Panic (Gate × (YieldId × Bytes))
start_batch j c first_id rest g = do
  check_pending (first_id ∷ rest) g
  batch_id ← or_panic (checked_add u64_mod g.active_batch_id 1) counter_overflow
  let signal : ResumeSignal = record {
    approve = true;
    sequence_number = some 0;
    next_intent_id = first rest;
  }
  resume_pending j c first_id signal
      (record g { active_batch_id = batch_id; batch_chain_tail = rest })

-- `Gate::resume_batch_chained`
unfoldable pub resume_batch_chained : Json → Call → List ℕ → Handler (Unit {0})
resume_batch_chained j c [] g = do
  require (c.predecessor == g.approver_id) not_approver
  err empty_batch
resume_batch_chained j c (first_id ∷ rest) g = do
  require (c.predecessor == g.approver_id) not_approver
  require (is_empty g.batch_chain_tail) batch_in_flight
  let n = length (first_id ∷ rest)
  (g, charged) ← charge_fee c (n % 2 ^ 32) g
  (g, resumed) ← start_batch j c first_id rest g
  ok (record {
    result = tt;
    gate = g;
    events = charged ∷ batch_started g.active_batch_id n first_id ∷ [];
    resumed = resumed ∷ [];
  })

-- `Gate::continue_chain`
unfoldable pub continue_chain : Json → Call → ℕ → ℕ → Handler PromiseOrValue
continue_chain j c next_id next_seq g = do
  assert_private c
  popped ← or_panic (first g.batch_chain_tail) empty_tail
  require (nat_eq popped next_id) tail_mismatch
  let rest = tail g.batch_chain_tail
  let signal : ResumeSignal = record {
    approve = true;
    sequence_number = some next_seq;
    next_intent_id = first rest;
  }
  (g, resumed) ← resume_pending j c next_id signal (record g { batch_chain_tail = rest })
  ok (record {
    result = value;
    gate = g;
    events = chain_continued next_id next_seq (length rest) ∷ [];
    resumed = resumed ∷ [];
  })
