-- ===== src/Gate/Trace/Widths.antt =====
-- The state of the gate (contracts/gate/src/lib.rs, types.rs) stays within its Rust types, through every
-- sequence of calls whose arguments do.
pub mod Calls
pub mod Sequences
use sequential_near.Prelude.{
  ℕ, Bool, ◌+◌, ◌-◌, ◌<◌, ◌≤◌, ◌≡◌, ◌⊎◌, ◌∙◌, Result-cases, sym, ap, refl, true, false, inl, inr,
  none, some, List, [], ◌∷◌, Result, ok, err, arith, All, nat_key, text_key, Bool-cases, nat_eq,
  nat_eq_iff, if◌then◌else◌,
}
use mathlib.Core.Path.{subst}
use sequential_near.Prelude.Map.{Map, lookup, insert, remove, lookup-insert, lookup-remove}
use sequential_near.Prelude.Word.{u32_mod, u64_mod, u128_mod}
use sequential_near.Host.{AccountId, Text, Bytes, Call}
use sequential_near.Borsh.{Borsh, BorshLaws, IsByte}
use sequential_near.Nep366.{Crypto, DelegateAction, FunctionCallAction, function_call}
use sequential_near.Nep366.Fields.{IsFunctionCall, IsAction, IsSigned}
use sequential_near.Nep366.RoundTrip.{parse_signed-ok}
use sequential_near.Gate.Types.{PendingIntent, CallbackArgs, ResumeSignal, Json}
use sequential_near.Gate.State.{
  Gate, Tier, Panic, Done, Promise, PromiseOrValue, new, assert_owner, assert_private, state_of,
  default_fee_tiers,
}
use sequential_near.Gate.Admin
use sequential_near.Gate.Fees
use sequential_near.Gate.Submit
use sequential_near.Gate.Chain
use sequential_near.Gate.Callback
use sequential_near.Gate.Callback.{PromiseError, resolve, chained}
use sequential_near.Gate.Submit.Accepts.{intent_of, submitted_gate, submit_intent_iff}
use sequential_near.Gate.Chain.Steps.{resume_intent_iff}
use sequential_near.Gate.Chain.Batch.{resume_batch_chained_iff, empty_batch_refused}
use sequential_near.Gate.Chain.Links.{continue_chain_iff}
use sequential_near.Gate.Callback.Outcomes.{callback_done, on_intent_resumed-done}
use sequential_near.Gate.Fees.Ladder.{set_fee_tiers-ok}
use sequential_near.Gate.Trace.{
  Op, add_relayer, remove_relayer, set_approver, set_fee_tiers, withdraw_fees, reset_batch_tail,
  submit_intent, resume_intent, resume_batch_chained, continue_chain, on_intent_resumed, apply,
  attempt, attempts,
}
use sequential_near.Gate.Trace.Effects.{state_of-eq-ok}

abbrev pub IsTier : Tier → Type 0
IsTier t = (t.0 < u32_mod) × (t.1 < u128_mod)

pub record IsIntent (p : PendingIntent) : Type 0 where
  pub deposit : p.deposit < u128_mod
  pub gas : p.gas < u64_mod
  pub nonce : p.nonce < u64_mod
  pub expires : p.expires_at_block < u64_mod
  pub submitted : p.submitted_at_block < u64_mod

abbrev pub AreIntents : Map ℕ PendingIntent → Type 0
AreIntents m = (id : ℕ) (p : PendingIntent) → lookup id m ≡ some p → IsIntent p

-- Every number of the state fits its Rust type.
pub record IsTyped (g : Gate) : Type 0 where
  pub next_id : g.next_intent_id < u64_mod
  pub submitted : g.intents_submitted < u64_mod
  pub dispatched : g.intents_dispatched < u64_mod
  pub rejected : g.intents_rejected < u64_mod
  pub batches : g.active_batch_id < u64_mod
  pub collected : g.fees_collected_total < u128_mod
  pub withdrawn : g.fees_withdrawn_total < u128_mod
  pub tiers : All IsTier g.fee_tiers
  pub tail : All (λ id. id < u64_mod) g.batch_chain_tail
  pub pending : AreIntents g.pending

-- A call whose arguments fit their Rust types.
abbrev pub IsTypedOp : Call × Op → Type 0
IsTypedOp (c, set_fee_tiers tiers) = All IsTier tiers
IsTypedOp (c, submit_intent bytes) = All IsByte bytes × (c.block_height < u64_mod)
IsTypedOp (c, resume_batch_chained ids) = All (λ id. id < u64_mod) ids
IsTypedOp (c, op) = Unit

pub remove-AreIntents : (id : ℕ) (m : Map ℕ PendingIntent) → AreIntents m → AreIntents (remove id m)
remove-AreIntents id m h other p found = h other p (ground (arith, lookup-remove id other m, found))

pub insert-AreIntents :
    (id : ℕ) (p : PendingIntent) (m : Map ℕ PendingIntent)
    → IsIntent p
    → AreIntents m
    → AreIntents (insert id p m)
insert-AreIntents id p m new h other q found = elim (Bool-cases (nat_eq id other)) [
  | inl shut ↦
      let same : p ≡ q = ground (arith, lookup-insert id other p m, found, shut) in
      subst IsIntent same new
  | inr differs ↦ h other q (ground (arith, lookup-insert id other p m, found, differs))
]

pub new-IsTyped : (owner approver : AccountId) → IsTyped (new owner approver)
unfolding new lookup
new-IsTyped owner approver = record {
  next_id = omega arith;
  submitted = omega arith;
  dispatched = omega arith;
  rejected = omega arith;
  batches = omega arith;
  collected = omega arith;
  withdrawn = omega arith;
  tiers =
      ((omega arith, omega arith), ((omega arith, omega arith), ((omega arith, omega arith), tt)));
  tail = tt;
  pending = λ id p found. cc found;
}
