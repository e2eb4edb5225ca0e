-- ===== src/Gate/Trace.antt =====
-- Every sequence of calls of the gate (contracts/gate/src/lib.rs), by any callers, in any order: the
-- calls that panic change nothing.
pub mod Effects
pub mod Keep
pub mod Sound
pub mod Replay
pub mod Stuck
pub mod Roles
pub mod Queue
pub mod Widths
use sequential_near.Prelude.{ℕ, Bool, List, [], ◌∷◌, Result, ok, err, ◌>>=◌}
use sequential_near.Host.{Bytes, AccountId, Call}
use sequential_near.Borsh.{Borsh}
use sequential_near.Nep366.{Crypto}
use sequential_near.Gate.Types.{ResumeSignal, CallbackArgs, Json}
use sequential_near.Gate.State.{Gate, Tier, Panic, state_of}
use sequential_near.Gate.Admin
use sequential_near.Gate.Fees
use sequential_near.Gate.Submit
use sequential_near.Gate.Chain
use sequential_near.Gate.Callback
use sequential_near.Gate.Callback.{PromiseError}

-- A call of one of the methods that change the state, with its arguments.
pub data Op : Type 0 where
  add_relayer remove_relayer set_approver : AccountId → Op
  set_fee_tiers : List Tier → Op
  withdraw_fees : ℕ → AccountId → Op
  reset_batch_tail : Op
  submit_intent : Bytes → Op
  resume_intent : ℕ → Bool → Op
  resume_batch_chained : List ℕ → Op
  continue_chain : ℕ → ℕ → Op
  on_intent_resumed : CallbackArgs → Result PromiseError ResumeSignal → Op

module _ (b : Borsh) (k : Crypto) (j : Json) where
  -- The dispatch of the contract's methods.
  unfoldable pub apply : Call → Op → Gate → Result Panic Gate
  apply c (add_relayer a) g = state_of (Admin.add_relayer c a g)
  apply c (remove_relayer a) g = state_of (Admin.remove_relayer c a g)
  apply c (set_approver a) g = state_of (Admin.set_approver c a g)
  apply c (set_fee_tiers tiers) g = state_of (Fees.set_fee_tiers c tiers g)
  apply c (withdraw_fees amount to) g = state_of (Fees.withdraw_fees c amount to g)
  apply c reset_batch_tail g = state_of (Admin.reset_batch_tail c g)
  apply c (submit_intent bytes) g = state_of (Submit.submit_intent b k j c bytes g)
  apply c (resume_intent id approve) g = state_of (Chain.resume_intent j c id approve g)
  apply c (resume_batch_chained ids) g = state_of (Chain.resume_batch_chained j c ids g)
  apply c (continue_chain id seq) g = state_of (Chain.continue_chain j c id seq g)
  apply c (on_intent_resumed a signal) g = state_of (Callback.on_intent_resumed c a signal g)

  pub attempt : Call × Op → Gate → Gate
  attempt (c, op) g = elim (apply c op g) [ ok g' ↦ g' | err _ ↦ g ]

  pub attempts : List (Call × Op) → Gate → Gate
  attempts [] g = g
  attempts (op ∷ ops) g = attempts ops (attempt op g)
