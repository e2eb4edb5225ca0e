-- ===== src/Gate/Trace/Widths/Calls.antt =====
-- Each call of the gate (contracts/gate/src/lib.rs) but `submit_intent` keeps the state within its Rust
-- types.
use sequential_near.Prelude.{
  ℕ, Bool, ◌+◌, ◌<◌, ◌≡◌, ◌∙◌, sym, ap, List, [], ◌∷◌, Result, ok, err, arith, All, nat_key,
  text_key,
}
use mathlib.Core.Path.{subst}
use sequential_near.Prelude.Map.{remove}
use sequential_near.Prelude.Word.{u64_mod, u128_mod}
use sequential_near.Host.{AccountId, Call}
use sequential_near.Gate.Types.{CallbackArgs, ResumeSignal, Json}
use sequential_near.Gate.State.{
  Gate, Tier, Done, PromiseOrValue, assert_owner, assert_private, state_of,
}
use sequential_near.Gate.Admin
use sequential_near.Gate.Fees
use sequential_near.Gate.Chain
use sequential_near.Gate.Callback
use sequential_near.Gate.Callback.{PromiseError, resolve, chained}
use sequential_near.Gate.Chain.Steps.{resume_intent_iff}
use sequential_near.Gate.Chain.Batch.{resume_batch_chained_iff, empty_batch_refused}
use sequential_near.Gate.Chain.Links.{continue_chain_iff}
use sequential_near.Gate.Fees.Ladder.{set_fee_tiers-ok}
use sequential_near.Gate.Trace.Effects.{state_of-eq-ok}
use sequential_near.Gate.Trace.Widths.{IsTier, IsTyped, remove-AreIntents}

module _ (c : Call) (g g' : Gate) (t : IsTyped g) where
  pub add_relayer-IsTyped :
      (a : AccountId) → state_of (Admin.add_relayer c a g) ≡ ok g' → IsTyped g'
  unfolding Admin.add_relayer assert_owner
  add_relayer-IsTyped a h = ground (arith, t)

  pub remove_relayer-IsTyped :
      (a : AccountId) → state_of (Admin.remove_relayer c a g) ≡ ok g' → IsTyped g'
  unfolding Admin.remove_relayer assert_owner
  remove_relayer-IsTyped a h = ground (arith, t)

  pub set_approver-IsTyped :
      (a : AccountId) → state_of (Admin.set_approver c a g) ≡ ok g' → IsTyped g'
  unfolding Admin.set_approver assert_owner
  set_approver-IsTyped a h = ground (arith, t)

  pub reset_batch_tail-IsTyped : state_of (Admin.reset_batch_tail c g) ≡ ok g' → IsTyped g'
  unfolding Admin.reset_batch_tail assert_owner
  reset_batch_tail-IsTyped h = ground (arith, t)

  pub withdraw_fees-IsTyped :
      (amount : ℕ) (to : AccountId)
      → state_of (Fees.withdraw_fees c amount to g) ≡ ok g'
      → IsTyped g'
  unfolding Fees.withdraw_fees assert_owner
  withdraw_fees-IsTyped amount to h = ground (arith, t)

  pub set_fee_tiers-IsTyped :
      (tiers : List Tier)
      → All IsTier tiers
      → state_of (Fees.set_fee_tiers c tiers g) ≡ ok g'
      → IsTyped g'
  set_fee_tiers-IsTyped tiers fit h =
      let (d, e, same) = state_of-eq-ok (Fees.set_fee_tiers c tiers g) h in
      let (ladder, changed) = set_fee_tiers-ok c tiers g d e in
      subst IsTyped (sym changed ∙ same) (record {
        next_id = t.next_id;
        submitted = t.submitted;
        dispatched = t.dispatched;
        rejected = t.rejected;
        batches = t.batches;
        collected = t.collected;
        withdrawn = t.withdrawn;
        tiers = fit;
        tail = t.tail;
        pending = t.pending;
      })

  -- What a resume changes.
  taken-IsTyped :
      (id collected batches : ℕ) (tail : List ℕ)
      → collected < u128_mod
      → batches < u64_mod
      → All (λ i. i < u64_mod) tail
      → IsTyped (record g {
        pending = remove id g.pending;
        batch_chain_tail = tail;
        active_batch_id = batches;
        fees_collected_total = collected;
      })
  taken-IsTyped id collected batches tail fits room ids = record {
    next_id = t.next_id;
    submitted = t.submitted;
    dispatched = t.dispatched;
    rejected = t.rejected;
    batches = room;
    collected = fits;
    withdrawn = t.withdrawn;
    tiers = t.tiers;
    tail = ids;
    pending = remove-AreIntents id g.pending t.pending;
  }

  pub resume_intent-IsTyped :
      (j : Json) (id : ℕ) (approve : Bool)
      → state_of (Chain.resume_intent j c id approve g) ≡ ok g'
      → IsTyped g'
  resume_intent-IsTyped j id approve h =
      let (d, e, same) = state_of-eq-ok (Chain.resume_intent j c id approve g) h in
      let (tier, p, payload, a, done) = (resume_intent_iff j c id approve g d).0 e in
      subst IsTyped (sym (ap (λ (x : Done (Unit {0})). x.gate) done) ∙ same) (
        taken-IsTyped id (g.fees_collected_total + tier.1) g.active_batch_id g.batch_chain_tail
          a.fits t.batches t.tail)

  pub resume_batch_chained-IsTyped :
      (j : Json) (ids : List ℕ)
      → All (λ id. id < u64_mod) ids
      → state_of (Chain.resume_batch_chained j c ids g) ≡ ok g'
      → IsTyped g'
  resume_batch_chained-IsTyped j [] fit h = absurd (empty_batch_refused j c g h)
  resume_batch_chained-IsTyped j (id ∷ ids) fit h =
      let (d, e, same) = state_of-eq-ok (Chain.resume_batch_chained j c (id ∷ ids) g) h in
      let (tier, p, payload, a, done) = (resume_batch_chained_iff j c id ids g d).0 e in
      subst IsTyped (sym (ap (λ (x : Done (Unit {0})). x.gate) done) ∙ same) (
        taken-IsTyped id (g.fees_collected_total + tier.1) (g.active_batch_id + 1) ids a.fits
          a.count_room fit.1)

  pub continue_chain-IsTyped :
      (j : Json) (id seq : ℕ) → state_of (Chain.continue_chain j c id seq g) ≡ ok g' → IsTyped g'
  continue_chain-IsTyped j id seq h =
      let (d, e, same) = state_of-eq-ok (Chain.continue_chain j c id seq g) h in
      let (rest, p, payload, a, done) = (continue_chain_iff j c id seq g d).0 e in
      subst IsTyped (sym (ap (λ (x : Done PromiseOrValue). x.gate) done) ∙ same) (
        taken-IsTyped id g.fees_collected_total g.active_batch_id rest t.collected t.batches
          (subst (All (λ i. i < u64_mod)) a.front t.tail).1)

  pub on_intent_resumed-IsTyped :
      (a : CallbackArgs) (signal : Result PromiseError ResumeSignal)
      → state_of (Callback.on_intent_resumed c a signal g) ≡ ok g'
      → IsTyped g'
  unfolding Callback.on_intent_resumed assert_private resolve chained
  on_intent_resumed-IsTyped a (err e) h =
      ground (arith, t, remove-AreIntents a.intent_id g.pending t.pending)
  on_intent_resumed-IsTyped a (ok signal) h =
      ground (arith, t, remove-AreIntents a.intent_id g.pending t.pending)
