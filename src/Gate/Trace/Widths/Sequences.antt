-- ===== src/Gate/Trace/Widths/Sequences.antt =====
-- `submit_intent`, and every sequence of calls of the gate (contracts/gate/src/lib.rs), keep the state
-- within its Rust types.
use sequential_near.Prelude.{
  ◌<◌, ◌≡◌, ◌∙◌, Result-cases, sym, ap, inl, inr, List, [], ◌∷◌, ok, All, nat_key, text_key,
}
use mathlib.Core.Path.{subst}
use sequential_near.Prelude.Word.{u64_mod}
use sequential_near.Host.{AccountId, Text, Bytes, Call}
use sequential_near.Borsh.{Borsh, BorshLaws, IsByte}
use sequential_near.Nep366.{Crypto}
use sequential_near.Nep366.Fields.{IsFunctionCall, IsAction}
use sequential_near.Nep366.RoundTrip.{parse_signed-ok}
use sequential_near.Gate.Types.{Json}
use sequential_near.Gate.State.{Gate, Done, Promise, new, state_of}
use sequential_near.Gate.Submit
use sequential_near.Gate.Submit.Accepts.{intent_of, submit_intent_iff}
use sequential_near.Gate.Trace.{
  Op, add_relayer, remove_relayer, set_approver, set_fee_tiers, withdraw_fees, reset_batch_tail,
  submit_intent, resume_intent, resume_batch_chained, continue_chain, on_intent_resumed, apply,
  attempt, attempts,
}
use sequential_near.Gate.Trace.Effects.{state_of-eq-ok}
use sequential_near.Gate.Trace.Widths.{IsTyped, IsTypedOp, insert-AreIntents, new-IsTyped}
use sequential_near.Gate.Trace.Widths.Calls.{
  add_relayer-IsTyped, remove_relayer-IsTyped, set_approver-IsTyped, reset_batch_tail-IsTyped,
  withdraw_fees-IsTyped, set_fee_tiers-IsTyped, resume_intent-IsTyped, resume_batch_chained-IsTyped,
  continue_chain-IsTyped, on_intent_resumed-IsTyped,
}

module _ {b : Borsh} {IsText IsAccount : Text → Type 0} (l : BorshLaws b IsText IsAccount)
    (k : Crypto) (j : Json) where
  submit_intent-IsTyped :
      (c : Call) (g g' : Gate) (bytes : Bytes)
      → IsTyped g
      → All IsByte bytes
      → c.block_height < u64_mod
      → state_of (Submit.submit_intent b k j c bytes g) ≡ ok g'
      → IsTyped g'
  submit_intent-IsTyped c g g' bytes t written height h =
      let (d, e, same) = state_of-eq-ok (Submit.submit_intent b k j c bytes g) h in
      let (signed, fc, payload, a, done) = (submit_intent_iff b k j c bytes g d).0 e in
      let (valid, wire) = parse_signed-ok l bytes signed written a.parsed in
      let v = valid.delegate_valid in
      let call : IsFunctionCall IsText IsAccount fc =
        (subst (All (IsAction IsText IsAccount)) a.single v.actions_valid.0).0 in
      subst IsTyped (sym (ap (λ (x : Done Promise). x.gate) done) ∙ same) (record {
        next_id = a.id_room;
        submitted = a.count_room;
        dispatched = t.dispatched;
        rejected = t.rejected;
        batches = t.batches;
        collected = t.collected;
        withdrawn = t.withdrawn;
        tiers = t.tiers;
        tail = t.tail;
        pending =
            insert-AreIntents g.next_intent_id (intent_of c signed.delegate_action fc) g.pending
              (record {
                deposit = call.deposit_u128;
                gas = call.gas_u64;
                nonce = v.nonce_u64;
                expires = v.height_u64;
                submitted = height;
              })
              t.pending;
      })

  apply-IsTyped :
      (c : Call) (op : Op) (g g' : Gate)
      → IsTyped g
      → IsTypedOp (c, op)
      → apply b k j c op g ≡ ok g'
      → IsTyped g'
  unfolding apply
  apply-IsTyped c (add_relayer a) g g' t fit h = add_relayer-IsTyped c g g' t a h
  apply-IsTyped c (remove_relayer a) g g' t fit h = remove_relayer-IsTyped c g g' t a h
  apply-IsTyped c (set_approver a) g g' t fit h = set_approver-IsTyped c g g' t a h
  apply-IsTyped c (set_fee_tiers tiers) g g' t fit h = set_fee_tiers-IsTyped c g g' t tiers fit h
  apply-IsTyped c (withdraw_fees amount to) g g' t fit h =
      withdraw_fees-IsTyped c g g' t amount to h
  apply-IsTyped c reset_batch_tail g g' t fit h = reset_batch_tail-IsTyped c g g' t h
  apply-IsTyped c (submit_intent bytes) g g' t fit h =
      submit_intent-IsTyped c g g' bytes t fit.0 fit.1 h
  apply-IsTyped c (resume_intent id approve) g g' t fit h =
      resume_intent-IsTyped c g g' t j id approve h
  apply-IsTyped c (resume_batch_chained ids) g g' t fit h =
      resume_batch_chained-IsTyped c g g' t j ids fit h
  apply-IsTyped c (continue_chain id seq) g g' t fit h = continue_chain-IsTyped c g g' t j id seq h
  apply-IsTyped c (on_intent_resumed a signal) g g' t fit h =
      on_intent_resumed-IsTyped c g g' t a signal h

  attempt-IsTyped :
      (op : Call × Op) (g : Gate) → IsTypedOp op → IsTyped g → IsTyped (attempt b k j op g)
  unfolding attempt
  attempt-IsTyped (c, op) g fit t = elim (Result-cases (apply b k j c op g)) [
    | inl (g', e) ↦ rw (e, attempt) (apply-IsTyped c op g g' t fit e)
    | inr (x, e) ↦ rw (e, attempt) t
  ]

  attempts-IsTyped_kept :
      (ops : List (Call × Op)) (g : Gate)
      → All IsTypedOp ops
      → IsTyped g
      → IsTyped (attempts b k j ops g)
  unfolding attempts
  attempts-IsTyped_kept [] g fit t = t
  attempts-IsTyped_kept (op ∷ ops) g fit t =
      attempts-IsTyped_kept ops (attempt b k j op g) fit.1 (attempt-IsTyped op g fit.0 t)

  -- From `new` on, whatever calls are made in whatever order, as long as their arguments fit their Rust
  -- types, so does every number of the state: the ids and the counters are below 2 ^ 64, the totals of
  -- the fees below 2 ^ 128, the caps below 2 ^ 32 with fees below 2 ^ 128, the ids of the tail below
  -- 2 ^ 64, and each pending intent's deposit below 2 ^ 128 and its gas, nonce and heights below 2 ^ 64.
  pub attempts-IsTyped :
      (owner approver : AccountId) (ops : List (Call × Op))
      → All IsTypedOp ops
      → IsTyped (attempts b k j ops (new owner approver))
  attempts-IsTyped owner approver ops fit =
      attempts-IsTyped_kept ops (new owner approver) fit (new-IsTyped owner approver)
