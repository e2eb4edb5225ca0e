-- ===== src/Gate/Trace/Sound.antt =====
-- The invariant of the gate (contracts/gate/src/lib.rs), through every sequence of calls.
use sequential_near.Prelude.{◌∙◌, ℕ, ◌+◌, ◌≤◌, ◌<◌, ◌≡◌, sym, refl, none, List, ok, arith, nat_key}
use sequential_near.Prelude.Map.{lookup, insert, remove, lookup-insert, lookup-remove}
use sequential_near.Prelude.Word.{u64_mod}
use mathlib.Core.Path.{subst}
use sequential_near.Host.{AccountId, Call}
use sequential_near.Borsh.{Borsh}
use sequential_near.Nep366.{Crypto, DelegateAction, FunctionCallAction}
use sequential_near.Gate.Types.{Json}
use sequential_near.Gate.State.{Gate, new}
use sequential_near.Gate.Submit.Accepts.{intent_of}
use sequential_near.Gate.Fees.Ladder.{IsLadder, default_fee_tiers-IsLadder}
use sequential_near.Gate.Fees.Ledger.{IsCovered}
use sequential_near.Gate.Trace.{Op, apply, attempts}
use sequential_near.Gate.Trace.Keep.{attempts_keep}
use sequential_near.Gate.Trace.Effects.{
  Effect, managed, cleared, priced, withdrawn, submitted, resumed, started, linked, resolved,
  apply-Effect,
}

-- The fee tiers are a ladder, no more fees were withdrawn than collected, every submission took one id,
-- and no id from `next_intent_id` on is pending.
pub record IsSound (g : Gate) : Type 0 where
  pub ladder : IsLadder g.fee_tiers
  pub covered : IsCovered g
  pub counted : g.intents_submitted ≡ g.next_intent_id
  pub id_u64 : g.next_intent_id < u64_mod
  pub below : (id : ℕ) → g.next_intent_id ≤ id → lookup id g.pending ≡ none

new-IsSound : (owner approver : AccountId) → IsSound (new owner approver)
unfolding new lookup
new-IsSound owner approver = record {
  ladder = default_fee_tiers-IsLadder;
  covered = record { withdrawn_le = omega arith; collected_u128 = omega arith };
  counted = refl;
  id_u64 = omega arith;
  below = λ id h. refl;
}

-- Taking an intent off the pending ones adds no id.
remove_below :
    (id other n : ℕ) (g : Gate)
    → ((i : ℕ) → n ≤ i → lookup i g.pending ≡ none)
    → n ≤ other
    → lookup other (remove id g.pending) ≡ none
remove_below id other n g below h = ground (arith, lookup-remove id other g.pending, below other h)

insert_below :
    (c : Call) (d : DelegateAction) (fc : FunctionCallAction) (i : ℕ) (g : Gate)
    → ((i : ℕ) → g.next_intent_id ≤ i → lookup i g.pending ≡ none)
    → g.next_intent_id + 1 ≤ i
    → lookup i (insert g.next_intent_id (intent_of c d fc) g.pending) ≡ none
insert_below c d fc i g below h =
    ground
      (arith, lookup-insert g.next_intent_id i (intent_of c d fc) g.pending, below i (omega arith))

IsCovered-kept :
    {g g' : Gate}
    → IsCovered g
    → g'.fees_withdrawn_total ≡ g.fees_withdrawn_total
    → g'.fees_collected_total ≡ g.fees_collected_total
    → IsCovered g'
IsCovered-kept v out collected = record {
  withdrawn_le = omega (arith, out, collected, v.withdrawn_le);
  collected_u128 = omega (arith, collected, v.collected_u128);
}

-- A call that submits nothing.
IsSound-kept :
    {g g' : Gate}
    → IsSound g
    → IsLadder g'.fee_tiers
    → IsCovered g'
    → g'.intents_submitted ≡ g.intents_submitted
    → g'.next_intent_id ≡ g.next_intent_id
    → ((i : ℕ) → g.next_intent_id ≤ i → lookup i g'.pending ≡ none)
    → IsSound g'
IsSound-kept s ladder covered submissions next below = record {
  ladder = ladder;
  covered = covered;
  counted = submissions ∙ s.counted ∙ sym next;
  id_u64 = omega (arith, next, s.id_u64);
  below = λ i h. below i (omega (arith, next, h));
}

Effect-IsSound : {c : Call} {op : Op} {g g' : Gate} → Effect c op g g' → IsSound g → IsSound g'
Effect-IsSound (managed _ _ _ e) s =
    subst IsSound (sym e)
      (IsSound-kept s s.ladder (IsCovered-kept s.covered refl refl) refl refl s.below)
Effect-IsSound (cleared _ _ e) s =
    subst IsSound (sym e)
      (IsSound-kept s s.ladder (IsCovered-kept s.covered refl refl) refl refl s.below)
Effect-IsSound (priced _ _ ladder e) s =
    subst IsSound (sym e)
      (IsSound-kept s ladder (IsCovered-kept s.covered refl refl) refl refl s.below)
Effect-IsSound (withdrawn amount _ le e) s = subst IsSound (sym e) (
    IsSound-kept s s.ladder
      (record {
        withdrawn_le = omega (arith, le, s.covered.withdrawn_le);
        collected_u128 = s.covered.collected_u128;
      })
      refl refl s.below)
Effect-IsSound {c} {g = g} (submitted d fc _ room _ e) s = subst IsSound (sym e) (record {
  ladder = s.ladder;
  covered = IsCovered-kept s.covered refl refl;
  counted = omega (arith, s.counted);
  id_u64 = room;
  below = λ i h. insert_below c d fc i g s.below h;
})
Effect-IsSound {g = g} (resumed id fee fits e) s = subst IsSound (sym e) (
    IsSound-kept s s.ladder
      (record { withdrawn_le = omega (arith, s.covered.withdrawn_le); collected_u128 = fits }) refl
      refl (λ i h. remove_below id i g.next_intent_id g s.below h))
Effect-IsSound {g = g} (started id _ t _ _ fits e) s = subst IsSound (sym e) (
    IsSound-kept s s.ladder
      (record { withdrawn_le = omega (arith, s.covered.withdrawn_le); collected_u128 = fits }) refl
      refl (λ i h. remove_below id i g.next_intent_id g s.below h))
Effect-IsSound {g = g} (linked id _ _ _ e) s = subst IsSound (sym e) (
    IsSound-kept s s.ladder (IsCovered-kept s.covered refl refl) refl refl
      (λ i h. remove_below id i g.next_intent_id g s.below h))
Effect-IsSound {g = g} (resolved id _ _ e) s = subst IsSound (sym e) (
    IsSound-kept s s.ladder (IsCovered-kept s.covered refl refl) refl refl
      (λ i h. remove_below id i g.next_intent_id g s.below h))

-- Every call that goes through keeps the gate sound.
pub apply-IsSound :
    (b : Borsh) (k : Crypto) (j : Json) (c : Call) (op : Op) (g g' : Gate)
    → IsSound g
    → apply b k j c op g ≡ ok g'
    → IsSound g'
apply-IsSound b k j c op g g' s h = Effect-IsSound (apply-Effect b k j c op g g' h) s

-- From `new` on, whatever calls are made, the gate is sound: its fee tiers are a ladder, no more fees
-- were withdrawn than collected, each submission took one id, and no id that was not yet given out is
-- pending.
pub attempts-IsSound :
    (b : Borsh) (k : Crypto) (j : Json) (owner approver : AccountId) (ops : List (Call × Op))
    → IsSound (attempts b k j ops (new owner approver))
attempts-IsSound b k j owner approver ops =
    attempts_keep b k j IsSound (λ c op g g' e s. Effect-IsSound e s) ops (new owner approver)
      (new-IsSound owner approver)
