-- ===== src/Gate/Run.antt =====
-- A batch of the gate (contracts/gate/src/lib.rs) from link to link, as the NEAR runtime drives it when
-- no other call comes in between: a resumed yield calls `on_intent_resumed` with the payload, and what
-- that returns with `.then` calls `continue_chain`, by the gate itself each time.
pub mod Links
pub mod Order
pub mod Target
pub mod Bound
use sequential_near.Prelude.{
  ℕ, zero, suc, Option, none, some, List, [], ◌∷◌, ◌++◌, Result, ok, err, ◌>>=◌, or_panic,
}
use sequential_near.Host.{Bytes, YieldId, Call}
use sequential_near.Gate.Types.{ResumeSignal, CallbackArgs, Json}
use sequential_near.Gate.State.{
  Gate, Panic, Promise, yielded, transfer, function_call, then_continue_chain, PromiseOrValue,
  promise, value, Done,
}
use sequential_near.Gate.Chain.{continue_chain}
use sequential_near.Gate.Callback.{PromiseError, on_intent_resumed}

-- Why a run ends early: a call of the gate panics, the runtime does not hold the yield or cannot read
-- its arguments or the payload, or the fuel is spent.
pub data Halt : Type 0 where
  panicked : Panic → Halt
  no_yield bad_args bad_payload out_of_fuel : Halt

abbrev pub lifted {ℓ} : {A : Type ℓ} → Result Panic A → Result Halt A
lifted (ok a) = ok a
lifted (err e) = err (panicked e)

-- The call that a returned promise makes, and the link that is to follow it.
abbrev pub parts : Promise → Promise × Option (ℕ × ℕ)
parts (then_continue_chain p account gas next_id next_seq) = (p, some (next_id, next_seq))
parts p = (p, none)

-- The callback of one yield, with the arguments that the runtime holds for it. near-sdk reads the payload
-- of the resume for `#[callback_result]`, and panics on one that it cannot read.
pub deliver :
    Json
    → Call
    → (YieldId → Option Bytes)
    → YieldId × Bytes
    → Gate
    → Result Halt (Done PromiseOrValue)
deliver j c held (y, payload) g = do
  bytes ← or_panic (held y) no_yield
  a ← or_panic (j.args_from_slice bytes) bad_args
  signal ← or_panic (j.signal_from_slice payload) bad_payload
  lifted (on_intent_resumed c a (ok signal) g)

module _ (j : Json) (c : Call) (held : YieldId → Option Bytes) where
  -- What follows a callback's result: the calls that are made, and `continue_chain` where it is due.
  pub follow : PromiseOrValue → Gate → Result Halt (Gate × List Promise × List (YieldId × Bytes))
  follow value g = ok (g, [], [])
  follow (promise p) g = elim (parts p).1 [
    | none ↦ ok (g, (parts p).0 ∷ [], [])
    | some link ↦ (do
      d ← lifted (continue_chain j c link.0 link.1 g)
      ok (d.gate, (parts p).0 ∷ [], d.resumed))
  ]

  pub run_link : YieldId × Bytes → Gate → Result Halt (Gate × List Promise × List (YieldId × Bytes))
  run_link r g = do d ← deliver j c held r g; follow d.result d.gate

  -- From the yields that are resumed on: the gate at the end, and the calls in their order.
  pub run_chain : ℕ → List (YieldId × Bytes) → Gate → Result Halt (Gate × List Promise)
  run_chain fuel [] g = ok (g, [])
  run_chain zero (r ∷ rs) g = err out_of_fuel
  run_chain (suc fuel) (r ∷ rs) g = do
    (g, calls, next) ← run_link r g
    (g, later) ← run_chain fuel (next ++ rs) g
    ok (g, calls ++ later)
