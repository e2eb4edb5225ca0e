-- ===== src/Gate/Trace/Queue.antt =====
-- The tail of a batch as a queue (contracts/gate/src/lib.rs), whatever calls come in between.
use sequential_near.Prelude.{
  ℕ, ◌≡◌, ◌≢◌, ◌∙◌, sym, ap, refl, List, [], ◌∷◌, ◌++◌, append-nil, append_assoc, Result, ok, err,
  arith, All, Result-cases, inl, inr, text_key,
}
use sequential_near.Host.{Bytes, Call}
use sequential_near.Borsh.{Borsh}
use sequential_near.Nep366.{Crypto}
use sequential_near.Gate.Types.{Json}
use sequential_near.Gate.State.{Gate, Panic, Done, state_of}
use sequential_near.Gate.Admin
use sequential_near.Gate.Fees
use sequential_near.Gate.Submit
use sequential_near.Gate.Chain
use sequential_near.Gate.Callback
use sequential_near.Gate.Callback.Outcomes.{on_intent_resumed-ok}
use sequential_near.Gate.Submit.Accepts.{submit_intent_iff}
use sequential_near.Gate.Chain.Steps.{resume_intent_iff}
use sequential_near.Gate.Chain.Batch.{resume_batch_chained_iff, empty_batch_refused}
use sequential_near.Gate.Chain.Links.{continue_chain_iff}
use sequential_near.Gate.Fees.Ladder.{set_fee_tiers-ok}
use sequential_near.Gate.Trace.{
  Op, add_relayer, remove_relayer, set_approver, set_fee_tiers, withdraw_fees, reset_batch_tail,
  submit_intent, resume_intent, resume_batch_chained, continue_chain, on_intent_resumed, apply,
  attempt, attempts,
}
use sequential_near.Gate.Trace.Effects.{state_of-eq-ok}

-- The ids that a call puts at the back of the queue, and the id that it takes from the front.
abbrev pub queued_by : Result Panic Gate → Op → List ℕ
queued_by (err e) op = []
queued_by (ok g) (resume_batch_chained (first_id ∷ rest)) = rest
queued_by (ok g) _ = []

abbrev pub linked_by : Result Panic Gate → Op → List ℕ
linked_by (err e) op = []
linked_by (ok g) (continue_chain id seq) = id ∷ []
linked_by (ok g) _ = []

module _ (b : Borsh) (k : Crypto) (j : Json) where
  pub queued : List (Call × Op) → Gate → List ℕ
  queued [] g = []
  queued ((c, op) ∷ ops) g =
      queued_by (apply b k j c op g) op ++ queued ops (attempt b k j (c, op) g)

  pub links : List (Call × Op) → Gate → List ℕ
  links [] g = []
  links ((c, op) ∷ ops) g = linked_by (apply b k j c op g) op ++ links ops (attempt b k j (c, op) g)

-- The owner's calls, but for the reset, leave the tail alone.
module _ (c : Call) (g g' : Gate) where
  add_relayer-tail :
      (a : Bytes)
      → state_of (Admin.add_relayer c a g) ≡ ok g'
      → g'.batch_chain_tail ≡ g.batch_chain_tail
  unfolding Admin.add_relayer
  add_relayer-tail a h = ground arith

  remove_relayer-tail :
      (a : Bytes)
      → state_of (Admin.remove_relayer c a g) ≡ ok g'
      → g'.batch_chain_tail ≡ g.batch_chain_tail
  unfolding Admin.remove_relayer
  remove_relayer-tail a h = ground arith

  set_approver-tail :
      (a : Bytes)
      → state_of (Admin.set_approver c a g) ≡ ok g'
      → g'.batch_chain_tail ≡ g.batch_chain_tail
  unfolding Admin.set_approver
  set_approver-tail a h = ground arith

  withdraw_fees-tail :
      (amount : ℕ) (to : Bytes)
      → state_of (Fees.withdraw_fees c amount to g) ≡ ok g'
      → g'.batch_chain_tail ≡ g.batch_chain_tail
  unfolding Fees.withdraw_fees
  withdraw_fees-tail amount to h = ground arith

queue_step :
    (b : Borsh) (k : Crypto) (j : Json) (c : Call) (op : Op) (g g' : Gate)
    → op ≢ reset_batch_tail
    → apply b k j c op g ≡ ok g'
    → g.batch_chain_tail ++ queued_by (ok g') op ≡ linked_by (ok g') op ++ g'.batch_chain_tail
unfolding apply
queue_step b k j c (add_relayer a) g g' keep h =
    append-nil g.batch_chain_tail ∙ sym (add_relayer-tail c g g' a h)
queue_step b k j c (remove_relayer a) g g' keep h =
    append-nil g.batch_chain_tail ∙ sym (remove_relayer-tail c g g' a h)
queue_step b k j c (set_approver a) g g' keep h =
    append-nil g.batch_chain_tail ∙ sym (set_approver-tail c g g' a h)
queue_step b k j c (set_fee_tiers tiers) g g' keep h =
    let (d, e, same) = state_of-eq-ok (Fees.set_fee_tiers c tiers g) h in
    let (_, changed) = set_fee_tiers-ok c tiers g d e in
    append-nil g.batch_chain_tail ∙ ap (λ (x : Gate). x.batch_chain_tail) (sym changed ∙ same)
queue_step b k j c (withdraw_fees amount to) g g' keep h =
    append-nil g.batch_chain_tail ∙ sym (withdraw_fees-tail c g g' amount to h)
queue_step b k j c reset_batch_tail g g' keep h = absurd (keep refl)
queue_step b k j c (submit_intent bytes) g g' keep h =
    let (d, e, same) = state_of-eq-ok (Submit.submit_intent b k j c bytes g) h in
    let (s, fc, payload, a, done) = (submit_intent_iff b k j c bytes g d).0 e in
    append-nil g.batch_chain_tail
    ∙ ap (λ (x : Done _). x.gate.batch_chain_tail) (sym done)
    ∙ ap (λ (x : Gate). x.batch_chain_tail) same
queue_step b k j c (resume_intent id approve) g g' keep h =
    let (d, e, same) = state_of-eq-ok (Chain.resume_intent j c id approve g) h in
    let (t, p, payload, a, done) = (resume_intent_iff j c id approve g d).0 e in
    append-nil g.batch_chain_tail
    ∙ ap (λ (x : Done _). x.gate.batch_chain_tail) (sym done)
    ∙ ap (λ (x : Gate). x.batch_chain_tail) same
queue_step b k j c (resume_batch_chained []) g g' keep h = absurd (empty_batch_refused j c g h)
queue_step b k j c (resume_batch_chained (id ∷ ids)) g g' keep h =
    let (d, e, same) = state_of-eq-ok (Chain.resume_batch_chained j c (id ∷ ids) g) h in
    let (t, p, payload, a, done) = (resume_batch_chained_iff j c id ids g d).0 e in
    ap (λ x. x ++ ids) a.idle
    ∙ ap (λ (x : Done _). x.gate.batch_chain_tail) (sym done)
    ∙ ap (λ (x : Gate). x.batch_chain_tail) same
queue_step b k j c (continue_chain id seq) g g' keep h =
    let (d, e, same) = state_of-eq-ok (Chain.continue_chain j c id seq g) h in
    let (rest, p, payload, a, done) = (continue_chain_iff j c id seq g d).0 e in
    append-nil g.batch_chain_tail
    ∙ a.front
    ∙ ap (λ (x : Done _). id ∷ x.gate.batch_chain_tail) (sym done)
    ∙ ap (λ (x : Gate). id ∷ x.batch_chain_tail) same
queue_step b k j c (on_intent_resumed a signal) g g' keep h =
    let (d, e, same) = state_of-eq-ok (Callback.on_intent_resumed c a signal g) h in
    let (x, y, changed) = on_intent_resumed-ok c a signal g d e in
    append-nil g.batch_chain_tail ∙ ap (λ (x : Gate). x.batch_chain_tail) (sym changed ∙ same)

attempt_ok :
    (b : Borsh) (k : Crypto) (j : Json) (c : Call) (op : Op) (g g' : Gate)
    → apply b k j c op g ≡ ok g'
    → attempt b k j (c, op) g ≡ g'
unfolding attempt
attempt_ok b k j c op g g' e = rw (e, attempt)

attempt_err :
    (b : Borsh) (k : Crypto) (j : Json) (c : Call) (op : Op) (g : Gate) (x : Panic)
    → apply b k j c op g ≡ err x
    → attempt b k j (c, op) g ≡ g
unfolding attempt
attempt_err b k j c op g x e = rw (e, attempt)

queue_attempt :
    (b : Borsh) (k : Crypto) (j : Json) (c : Call) (op : Op) (g : Gate)
    → op ≢ reset_batch_tail
    → g.batch_chain_tail ++ queued_by (apply b k j c op g) op
      ≡ linked_by (apply b k j c op g) op ++ (attempt b k j (c, op) g).batch_chain_tail
queue_attempt b k j c op g keep = elim (Result-cases (apply b k j c op g)) [
  | inl (g', e) ↦ rw e (
      queue_step b k j c op g g' keep e
      ∙ ap (λ (x : Gate). linked_by (ok g') op ++ x.batch_chain_tail)
          (sym (attempt_ok b k j c op g g' e)))
  | inr (x, e) ↦ rw e (
      append-nil g.batch_chain_tail
      ∙ ap (λ (y : Gate). y.batch_chain_tail) (sym (attempt_err b k j c op g x e)))
]

regroup :
    (front back taken tail' later links' final : List ℕ)
    → front ++ back ≡ taken ++ tail'
    → tail' ++ later ≡ links' ++ final
    → front ++ (back ++ later) ≡ (taken ++ links') ++ final
regroup front back taken tail' later links' final h t =
    sym (append_assoc front back later)
    ∙ ap (λ x. x ++ later) h
    ∙ append_assoc taken tail' later
    ∙ ap (λ x. taken ++ x) t
    ∙ sym (append_assoc taken links' final)

-- The tail is a queue under any calls by anyone that do not include `reset_batch_tail`: the ids that the
-- links take, in the order in which they go through, and then the ids that are left in the tail, are the
-- ids that stood in the tail at first, and then those that the accepted batches name behind their first.
pub links-queued :
    (b : Borsh) (k : Crypto) (j : Json) (ops : List (Call × Op)) (g : Gate)
    → All (λ op. op.1 ≢ reset_batch_tail) ops
    → links b k j ops g ++ (attempts b k j ops g).batch_chain_tail
      ≡ g.batch_chain_tail ++ queued b k j ops g
unfolding links queued attempts
links-queued b k j [] g keep = sym (append-nil g.batch_chain_tail)
links-queued b k j ((c, op) ∷ ops) g keep =
    let after = attempt b k j (c, op) g in
    sym (
      regroup g.batch_chain_tail _ _ after.batch_chain_tail _ _ _
        (queue_attempt b k j c op g keep.0) (sym (links-queued b k j ops after keep.1)))
