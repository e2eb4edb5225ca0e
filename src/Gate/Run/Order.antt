-- ===== src/Gate/Run/Order.antt =====
-- A batch that starts is dispatched to its end, in the order that the approver gave
-- (contracts/gate/src/lib.rs).
use sequential_near.Prelude.{
  IsDistinct, ℕ, zero, suc, ◌+◌, ◌≤◌, ◌<◌, ◌≡◌, ◌≢◌, ◌∙◌, sym, ap, refl, Option, none, some, List,
  [], ◌∷◌, map, ok, arith, nat_key, All, length, ==_refl,
}
use sequential_near.Prelude.Map.{Map, lookup, remove, lookup-remove}
use sequential_near.Prelude.Word.{u32_mod, u64_mod}
use sequential_near.Host.{Bytes, YieldId, Call}
use sequential_near.Gate.Types.{PendingIntent, ResumeSignal, Json, JsonLaws}
use sequential_near.Gate.State.{Gate, Done}
use sequential_near.Gate.Chain.{resume_batch_chained}
use sequential_near.Gate.Chain.Steps.{chain_signal}
use sequential_near.Gate.Chain.Batch.{batch_gate, resume_batch_chained_iff}
use sequential_near.Gate.Run.{run_chain}
use sequential_near.Gate.Run.Links.{
  IsWaiting, call_of, callback_gate, linked_gate, run_link_last, run_link_next,
}

-- What a batch leaves behind: its ids are not pending any more, the other intents are as they were, the
-- next batch can start, and every intent counts as dispatched.
pub record IsCompleted (ids : List ℕ) (g g' : Gate) : Type 0 where
  pub idle : g'.batch_chain_tail ≡ []
  pub counted : g'.intents_dispatched ≡ g.intents_dispatched + length ids
  pub none_rejected : g'.intents_rejected ≡ g.intents_rejected
  pub gone : All (λ id. lookup id g'.pending ≡ none) ids
  pub others :
      (other : ℕ) → All (λ id. id ≢ other) ids → lookup other g'.pending ≡ lookup other g.pending

lookup-remove_other :
    {V : Type 0} (id other : ℕ) (m : Map ℕ V)
    → id ≢ other
    → lookup other (remove id m) ≡ lookup other m
lookup-remove_other id other m ne = ground (arith, lookup-remove id other m)

lookup-remove_same : {V : Type 0} (id : ℕ) (m : Map ℕ V) → lookup id (remove id m) ≡ none
lookup-remove_same id m = ground (arith, lookup-remove id id m, ==_refl id)

not_in_sym : (id : ℕ) (ids : List ℕ) → All (λ other. id ≢ other) ids → All (λ other. other ≢ id) ids
not_in_sym id [] h = tt
not_in_sym id (x ∷ xs) h = ((λ e. h.0 (sym e)), not_in_sym id xs h.1)

module _ (j : Json) (c : Call) (held : YieldId → Option Bytes) (intents : ℕ → PendingIntent)
    (laws : JsonLaws j) (own : c.predecessor ≡ c.current_account)
    (packs : (s : ResumeSignal) → (bytes : Bytes) × (j.signal_to_vec s ≡ some bytes)) where
  IsWaiting-remove :
      (id other : ℕ) (g g' : Gate)
      → g'.pending ≡ remove id g.pending
      → id ≢ other
      → IsWaiting j c held intents g other
      → IsWaiting j c held intents g' other
  IsWaiting-remove id other g g' e ne w = record {
    stored = ap (lookup other) e ∙ lookup-remove_other id other g.pending ne ∙ w.stored;
    alive = w.alive;
    packed = w.packed;
  }

  All-IsWaiting-remove :
      (id : ℕ) (ids : List ℕ) (g g' : Gate)
      → g'.pending ≡ remove id g.pending
      → All (λ other. id ≢ other) ids
      → All (IsWaiting j c held intents g) ids
      → All (IsWaiting j c held intents g') ids
  All-IsWaiting-remove id [] g g' e ne w = tt
  All-IsWaiting-remove id (x ∷ xs) g g' e ne w =
      (IsWaiting-remove id x g g' e ne.0 w.0, All-IsWaiting-remove id xs g g' e ne.1 w.1)

  chain_runs :
      (rest : List ℕ) (id seq fuel : ℕ) (payload : Bytes) (g g₀ : Gate)
      → length rest < fuel
      → g.batch_chain_tail ≡ rest
      → IsWaiting j c held intents g₀ id
      → j.signal_to_vec (chain_signal seq rest) ≡ some payload
      → All (IsWaiting j c held intents g) rest
      → IsDistinct (id ∷ rest)
      → g.intents_rejected + 1 < u64_mod
      → g.intents_dispatched + length (id ∷ rest) < u64_mod
      → seq + length (id ∷ rest) < u32_mod
      → (g' : Gate) × (run_chain j c held fuel (((intents id).yield_id, payload) ∷ []) g
          ≡ ok (g', map (call_of j c held intents) (id ∷ rest)))
        × IsCompleted (id ∷ rest) g g'
  unfolding run_chain
  chain_runs rest id seq zero payload g g₀ spare front w packed ws distinct rejected dispatched
        small =
      absurd (omega arith)
  chain_runs [] id seq (suc fuel) payload g g₀ spare front w packed ws distinct rejected dispatched
        small =
      (
        callback_gate j c held intents id g,
        rw (
            run_link_last j c held intents laws own id seq payload g g₀ w packed rejected
              (omega arith) (omega arith)),
        record {
          idle = front;
          counted = refl;
          none_rejected = refl;
          gone = (lookup-remove_same id g.pending, tt);
          others = λ other ne. lookup-remove_other id other g.pending ne.0;
        },
      )
  chain_runs (n ∷ rest) id seq (suc fuel) payload g g₀ spare front w packed ws distinct rejected
        dispatched small =
      let (next_payload, packed') = packs (chain_signal (seq + 1) rest) in
      let called = callback_gate j c held intents id g in
      let linked = linked_gate j c held intents n rest called in
      let w' = IsWaiting-remove id n g called refl distinct.0.0 ws.0 in
      let (g', runs, completed) =
        chain_runs rest n (seq + 1) fuel next_payload linked called (omega arith) refl w' packed'
          (All-IsWaiting-remove n rest called linked refl distinct.1.0
            (All-IsWaiting-remove id rest g called refl distinct.0.1 ws.1))
          distinct.1 rejected (omega arith) (omega arith) in
      (
        g',
        rw
            (run_link_next j c held intents laws own id seq n rest payload next_payload g g₀ w
              packed rejected (omega arith) (omega arith) front w' packed')
            (rw runs),
        record {
          idle = completed.idle;
          counted = omega (arith, completed.counted);
          none_rejected = completed.none_rejected;
          gone = (
            completed.others id (not_in_sym id (n ∷ rest) distinct.0)
                ∙ lookup-remove_other n id (remove id g.pending) (λ e. distinct.0.0 (sym e))
                ∙ lookup-remove_same id g.pending,
            completed.gone,
          );
          others = λ other ne.
              completed.others other ne.1
              ∙ lookup-remove_other n other (remove id g.pending) ne.1.0
              ∙ lookup-remove_other id other g.pending ne.0;
        },
      )

-- A batch of distinct ids, fewer than 2 ^ 32, that was accepted runs to its end, with one step for
-- each id: as long as the calls are the gate's own, the intents wait with their yields alive, JSON
-- writes every signal and reads back what it wrote, and the counters stay below 2 ^ 64, the gate
-- makes exactly the calls that were signed, in the order that the approver gave. No id of the batch
-- is pending then, the other intents are as they were, the tail is empty, and all the ids are
-- counted as dispatched.
pub resume_batch_chained-runs :
    (j : Json) (c own_call : Call) (held : YieldId → Option Bytes) (intents : ℕ → PendingIntent)
    (first_id : ℕ) (rest : List ℕ) (fuel : ℕ) (g : Gate) (d : Done (Unit {0}))
    → JsonLaws j
    → ((s : ResumeSignal) → (bytes : Bytes) × (j.signal_to_vec s ≡ some bytes))
    → own_call.predecessor ≡ own_call.current_account
    → resume_batch_chained j c (first_id ∷ rest) g ≡ ok d
    → IsDistinct (first_id ∷ rest)
    → All (IsWaiting j own_call held intents g) (first_id ∷ rest)
    → g.intents_rejected + 1 < u64_mod
    → g.intents_dispatched + length (first_id ∷ rest) < u64_mod
    → length (first_id ∷ rest) < u32_mod
    → length (first_id ∷ rest) ≤ fuel
    → (g' : Gate) × (run_chain j own_call held fuel d.resumed d.gate
        ≡ ok (g', map (call_of j own_call held intents) (first_id ∷ rest)))
      × IsCompleted (first_id ∷ rest) g g'
resume_batch_chained-runs j c own_call held intents first_id rest fuel g d laws packs own accepted
      distinct ws rejected dispatched small enough =
    let (t, p, payload, a, done) = (resume_batch_chained_iff j c first_id rest g d).0 accepted in
    let started = batch_gate first_id rest t g in
    let same : p ≡ intents first_id = cc (a.resumable.found, ws.0.stored) in
    let ws' =
      All-IsWaiting-remove j own_call held intents laws own packs first_id rest g started refl
        distinct.0 ws.1 in
    let (g', runs, completed) =
      chain_runs j own_call held intents laws own packs rest first_id 0 fuel payload started g
        (omega arith) refl ws.0 a.resumable.packed ws' distinct rejected dispatched (omega arith) in
    (
      g',
      ap (λ (x : Done (Unit {0})). run_chain j own_call held fuel x.resumed x.gate) done
          ∙ ap
              (λ (q : PendingIntent).
                run_chain j own_call held fuel ((q.yield_id, payload) ∷ []) started)
              same
          ∙ runs,
      record {
        idle = completed.idle;
        counted = completed.counted;
        none_rejected = completed.none_rejected;
        gone = completed.gone;
        others = λ other ne.
            completed.others other ne ∙ lookup-remove_other first_id other g.pending ne.0;
      },
    )
