-- ===== src/Gate/State.antt =====
-- The state of the gate (contracts/gate/src/lib.rs), what a call of it answers, and how it can panic.
-- A panic reverts the call, so that an outcome has a new state only where it is `ok`.
use sequential_near.Prelude.{
  ℕ, Bool, Option, List, [], ◌∷◌, Result, ok, err, require, ◌==◌, text_key,
}
use sequential_near.Prelude.Map.{Map}
use sequential_near.Host.{Bytes, Text, AccountId, YieldId, Call}
use sequential_near.Borsh.{IoError}
use sequential_near.Nep366.{ActionsError}
use sequential_near.Gate.Types.{PendingIntent}

-- 200 Tgas and 60 Tgas.
abbrev pub gas_yield_callback : ℕ
gas_yield_callback = 200_000_000_000_000

abbrev pub gas_continue_chain : ℕ
gas_continue_chain = 60_000_000_000_000

-- A cap on the size of a batch, inclusive, and the fee in yocto.
abbrev pub Tier : Type 0
Tier = ℕ × ℕ

abbrev pub default_fee_tiers : List Tier
default_fee_tiers =
    (3, 30_000_000_000_000_000_000_000)
    ∷ (6, 50_000_000_000_000_000_000_000)
    ∷ (12, 60_000_000_000_000_000_000_000)
    ∷ []

pub record Gate : Type 0 where
  pub owner_id : AccountId
  pub approver_id : AccountId
  pub relayers : Map AccountId (Unit {0})
  pub pending : Map ℕ PendingIntent
  pub used_nonces : Map Text ℕ
  pub next_intent_id : ℕ
  pub intents_submitted : ℕ
  pub intents_dispatched : ℕ
  pub intents_rejected : ℕ
  pub batch_chain_tail : List ℕ
  pub active_batch_id : ℕ
  pub fee_tiers : List Tier
  pub fees_collected_total : ℕ
  pub fees_withdrawn_total : ℕ

-- The `trace:` lines of `emit_trace`, by their `ev` and their fields.
pub data Event : Type 0 where
  gate_inited : AccountId → AccountId → Event
  relayer_added relayer_removed approver_set : AccountId → Event
  fee_tiers_set : ℕ → ℕ → Event
  fees_withdrawn : ℕ → AccountId → Event
  batch_tail_reset : ℕ → Event
  intent_submitted : ℕ → AccountId → AccountId → Text → ℕ → Event
  intent_resumed : ℕ → Bool → Event
  batch_started : ℕ → ℕ → ℕ → Event
  chain_continued : ℕ → ℕ → ℕ → Event
  resolved_timeout : ℕ → Text → Event
  resolved_rejected : ℕ → Event
  intent_dispatched : ℕ → AccountId → Text → Option ℕ → Event
  fee_charged : ℕ → ℕ → ℕ → Event

pub data Panic : Type 0 where
  not_owner not_private not_relayer not_approver : Panic
  no_tiers zero_cap caps_not_ascending : Panic
  insufficient_fee_balance : ℕ → ℕ → Panic
  withdrawn_overflow collected_overflow counter_overflow : Panic
  invalid_delegate : IoError → Panic
  bad_signature expired nonce_used : Panic
  bad_actions : ActionsError → Panic
  args_serialization payload_serialization : Panic
  batch_too_big : ℕ → ℕ → Panic
  insufficient_fee : ℕ → ℕ → ℕ → Panic
  unknown_intent : ℕ → Panic
  resume_failed : Panic
  empty_batch batch_in_flight : Panic
  empty_tail tail_mismatch : Panic

-- The promises that the gate makes.
pub data Promise : Type 0 where
  -- `Promise::new_yield` of `on_intent_resumed`: the handle, the arguments, the gas and its weight
  yielded : YieldId → Bytes → ℕ → ℕ → Promise
  -- `Promise::new(to).transfer(amount)`
  transfer : AccountId → ℕ → Promise
  -- `Promise::new(receiver).function_call(method, args, deposit, gas)`
  function_call : AccountId → Text → Bytes → ℕ → ℕ → Promise
  -- `promise.then(Self::ext(account).with_static_gas(gas).continue_chain(next_id, next_seq))`
  then_continue_chain : Promise → AccountId → ℕ → ℕ → ℕ → Promise

pub data PromiseOrValue : Type 0 where
  promise : Promise → PromiseOrValue
  value : PromiseOrValue

-- What a call that returns has done: its result, the state it leaves, its trace, and the yields that
-- it resumed, each with its payload.
pub record Done (A : Type 0) : Type 0 where
  pub result : A
  pub gate : Gate
  pub events : List Event
  pub resumed : List (YieldId × Bytes)

abbrev pub Handler : Type 0 → Type 0
Handler A = Gate → Result Panic (Done A)

-- A call that returns `a` and resumes nothing.
abbrev pub done : {A : Type 0} → A → List Event → Gate → Result Panic (Done A)
done a events g = ok (record { result = a; gate = g; events = events; resumed = [] })

-- `Gate::new`; its `gate_inited` line is a trace only.
unfoldable pub new : AccountId → AccountId → Gate
new owner_id approver_id = record {
  owner_id = owner_id;
  approver_id = approver_id;
  relayers = [];
  pending = [];
  used_nonces = [];
  next_intent_id = 0;
  intents_submitted = 0;
  intents_dispatched = 0;
  intents_rejected = 0;
  batch_chain_tail = [];
  active_batch_id = 0;
  fee_tiers = default_fee_tiers;
  fees_collected_total = 0;
  fees_withdrawn_total = 0;
}

-- `Gate::assert_owner`
unfoldable pub assert_owner : Call → Gate → Result Panic (Unit {0})
assert_owner c g = require (c.predecessor == g.owner_id) not_owner

-- near-sdk's `#[private]`: only the contract itself calls.
unfoldable pub assert_private : Call → Result Panic (Unit {0})
assert_private c = require (c.predecessor == c.current_account) not_private

-- The state that a call leaves.
abbrev pub state_of : {A : Type 0} → Result Panic (Done A) → Result Panic Gate
state_of (ok d) = ok d.gate
state_of (err e) = err e
