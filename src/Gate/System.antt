-- ===== src/Gate/System.antt =====
-- The gate (contracts/gate/src/lib.rs) among its callers and in the NEAR runtime, which holds the
-- yields, lets them run out, and makes the gate's own calls: `on_intent_resumed` for a yield that was
-- resumed or has timed out, and `continue_chain` behind a dispatched call. Between any two of these
-- other accounts may call, and the callbacks come in any order.
pub mod Changes
pub mod Single
pub mod Backed
pub mod Woken
pub mod Origins
pub mod Places
pub mod Once
pub mod Yields
pub mod Approvals
pub mod Authority
pub mod Numbers
pub mod Drain
pub mod Ends
pub mod Dispatches
pub mod InFlight
pub mod Progress
pub mod Order
use sequential_near.Prelude.{
  ℕ, ◌+◌, ◌≡◌, ◌≢◌, Bool, true, false, Option, none, some, List, [], ◌∷◌, ◌++◌, Result, ok, err,
  ◌>>=◌, or_panic, nat_eq, nat_key, if◌then◌else◌,
}
use sequential_near.Prelude.Map.{lookup}
use sequential_near.Host.{Bytes, AccountId, YieldId, Call}
use sequential_near.Borsh.{Borsh}
use sequential_near.Nep366.{Crypto}
use sequential_near.Gate.Types.{PendingIntent, ResumeSignal, Json}
use sequential_near.Gate.State.{
  Gate, Panic, Promise, yielded, PromiseOrValue, promise, value, Done, new,
}
use sequential_near.Gate.Submit.{submit_intent}
use sequential_near.Gate.Chain.{resume_intent, resume_batch_chained, continue_chain}
use sequential_near.Gate.Callback.{PromiseError, on_intent_resumed}
use sequential_near.Gate.Run.{Halt, bad_args, lifted, parts}
use sequential_near.Gate.Trace.{
  Op, add_relayer, remove_relayer, set_approver, set_fee_tiers, withdraw_fees, reset_batch_tail,
  apply,
}

-- How an intent ended: its call was made, it was refused or ran out, or its callback panicked.
pub data Fate : Type 0 where
  dispatched : Promise → Fate
  rejected failed : Fate

-- The gate and what the runtime keeps for it; an intent goes by its callback's arguments, in bytes.
pub record System : Type 0 where
  pub gate : Gate
  -- the yields that wait
  pub held : List (YieldId × Bytes)
  -- the callbacks that are due
  pub callbacks : List (Bytes × Result PromiseError ResumeSignal)
  -- the calls of `continue_chain` that are due, each with its id and its number
  pub links : List (ℕ × ℕ)
  -- the intents that have ended, the latest first
  pub settled : List (Bytes × Fate)
  -- the ids that the calls of the resume paths that went through have named for approval, by whoever made
  -- them
  pub approvals : List ℕ

abbrev pub start : AccountId → AccountId → System
start owner approver = record {
  gate = new owner approver;
  held = [];
  callbacks = [];
  links = [];
  settled = [];
  approvals = [];
}

-- The yield with this handle, and the others.
unfoldable pub take_yield :
    YieldId → List (YieldId × Bytes) → Option (Bytes × List (YieldId × Bytes))
take_yield y [] = none
take_yield y ((z, bytes) ∷ held) =
    let rest = take_yield y held in
    if nat_eq z y
    then some (bytes, held)
    else elim rest [ none ↦ none | some t ↦ some (t.0, (z, bytes) ∷ t.1) ]

unfoldable pub is_held : YieldId → List (YieldId × Bytes) → Bool
is_held y held = elim (take_yield y held) [ none ↦ false | some _ ↦ true ]

-- The yield that a returned promise makes.
abbrev pub new_yields : Promise → List (YieldId × Bytes)
new_yields (yielded y bytes gas weight) = (y, bytes) ∷ []
new_yields p = []

-- The yield that was taken leaves for its callback with the signal that the payload holds. near-sdk
-- panics on a payload that it cannot read.
abbrev pub wake : Option (Bytes × List (YieldId × Bytes)) → Option ResumeSignal → System → System
wake none signal s = s
wake (some t) none s = record s { held = t.1; settled = (t.0, failed) ∷ s.settled }
wake (some t) (some signal) s = record s { held = t.1; callbacks = (t.0, ok signal) ∷ s.callbacks }

-- The yields that a call resumed leave for their callbacks.
abbrev pub fire : Json → List (YieldId × Bytes) → System → System
fire j [] s = s
fire j ((y, payload) ∷ rs) s =
    fire j rs (wake (take_yield y s.held) (j.signal_from_slice payload) s)

-- The callback with the arguments that the yield was made with.
abbrev pub answer :
    Json
    → Call
    → Bytes
    → Result PromiseError ResumeSignal
    → Gate
    → Result Halt (Done PromiseOrValue)
answer j c bytes signal g = do
  a ← or_panic (j.args_from_slice bytes) bad_args
  lifted (on_intent_resumed c a signal g)

abbrev pub fate_of : PromiseOrValue → Fate
fate_of value = rejected
fate_of (promise p) = dispatched (parts p).0

abbrev pub next_links : PromiseOrValue → List (ℕ × ℕ)
next_links value = []
next_links (promise p) = elim (parts p).1 [ none ↦ [] | some link ↦ link ∷ [] ]

-- The methods that only the owner may call.
abbrev pub IsOwnerOp : Op → Type 0
IsOwnerOp (add_relayer a) = Unit
IsOwnerOp (remove_relayer a) = Unit
IsOwnerOp (set_approver a) = Unit
IsOwnerOp (set_fee_tiers tiers) = Unit
IsOwnerOp (withdraw_fees amount to) = Unit
IsOwnerOp reset_batch_tail = Unit
IsOwnerOp op = ⊥

-- What the runtime does for every call of the gate: a resume finds exactly the yields that wait.
pub record IsServed (self : AccountId) (c : Call) (s : System) : Type 0 where
  pub account : c.current_account ≡ self
  pub alive : (y : YieldId) → c.resumable y ≡ is_held y s.held

-- A call that the runtime makes for the gate itself.
pub record IsOwnCall (self : AccountId) (c : Call) (s : System) : Type 0 where
  pub served : IsServed self c s
  pub own : c.predecessor ≡ self

-- The handle of a new yield is no pending intent's.
abbrev pub IsNewHandle : Call → System → Type 0
IsNewHandle c s =
    (id : ℕ) (p : PendingIntent) → lookup id s.gate.pending ≡ some p → p.yield_id ≢ c.fresh_yield

module _ (j : Json) (self : AccountId) where
  -- The runtime's steps.
  pub data Move : System → System → Type 0 where
    -- a yield runs out
    times_out :
        (s : System) (y : YieldId) (bytes : Bytes) (rest : List (YieldId × Bytes))
        (reason : PromiseError)
        → take_yield y s.held ≡ some (bytes, rest)
        → Move s (record s { held = rest; callbacks = (bytes, err reason) ∷ s.callbacks })
    -- any of the callbacks that are due goes through
    calls_back :
        (s : System) (front back : List (Bytes × Result PromiseError ResumeSignal)) (bytes : Bytes)
        (signal : Result PromiseError ResumeSignal) (c : Call) (d : Done PromiseOrValue)
        → s.callbacks ≡ front ++ (bytes, signal) ∷ back
        → IsOwnCall self c s
        → answer j c bytes signal s.gate ≡ ok d
        → Move s (record s {
          gate = d.gate;
          callbacks = front ++ back;
          links = next_links d.result ++ s.links;
          settled = (bytes, fate_of d.result) ∷ s.settled;
        })
    -- or it panics
    call_back_fails :
        (s : System) (front back : List (Bytes × Result PromiseError ResumeSignal)) (bytes : Bytes)
        (signal : Result PromiseError ResumeSignal) (c : Call) (h : Halt)
        → s.callbacks ≡ front ++ (bytes, signal) ∷ back
        → IsOwnCall self c s
        → answer j c bytes signal s.gate ≡ err h
        → Move s (record s { callbacks = front ++ back; settled = (bytes, failed) ∷ s.settled })
    -- any of the links that are due goes through
    continues :
        (s : System) (front back : List (ℕ × ℕ)) (id seq : ℕ) (c : Call) (d : Done PromiseOrValue)
        → s.links ≡ front ++ (id, seq) ∷ back
        → IsOwnCall self c s
        → continue_chain j c id seq s.gate ≡ ok d
        → Move s (fire j d.resumed (record s { gate = d.gate; links = front ++ back }))
    -- or it panics
    continue_fails :
        (s : System) (front back : List (ℕ × ℕ)) (id seq : ℕ) (c : Call) (e : Panic)
        → s.links ≡ front ++ (id, seq) ∷ back
        → IsOwnCall self c s
        → continue_chain j c id seq s.gate ≡ err e
        → Move s (record s { links = front ++ back })

  -- The runtime's steps, in a row, and how many there are.
  pub data Moves : System → System → Type 0 where
    rests : (s : System) → Moves s s
    moves : {s t u : System} → Move s t → Moves t u → Moves s u

  abbrev pub count : {s t : System} → Moves s t → ℕ
  count (rests s) = 0
  count (moves m ms) = count ms + 1

module _ (b : Borsh) (k : Crypto) (j : Json) (self : AccountId) where
  -- A call of another account that goes through, or a step of the runtime. A call that panics changes
  -- nothing.
  pub data Step : System → System → Type 0 where
    submits :
        (s : System) (c : Call) (bytes : Bytes) (d : Done Promise)
        → IsServed self c s
        → IsNewHandle c s
        → submit_intent b k j c bytes s.gate ≡ ok d
        → Step s (record s { gate = d.gate; held = new_yields d.result ++ s.held })
    resumes :
        (s : System) (c : Call) (id : ℕ) (approve : Bool) (d : Done (Unit {0}))
        → IsServed self c s
        → resume_intent j c id approve s.gate ≡ ok d
        → Step s (
            fire j d.resumed (record s {
              gate = d.gate;
              approvals = (if approve then id ∷ [] else []) ++ s.approvals;
            }))
    starts_batch :
        (s : System) (c : Call) (ids : List ℕ) (d : Done (Unit {0}))
        → IsServed self c s
        → resume_batch_chained j c ids s.gate ≡ ok d
        → Step s (fire j d.resumed (record s { gate = d.gate; approvals = ids ++ s.approvals }))
    manages :
        (s : System) (c : Call) (op : Op) (g : Gate)
        → IsServed self c s
        → IsOwnerOp op
        → apply b k j c op s.gate ≡ ok g
        → Step s (record s { gate = g })
    runs : {s t : System} → Move j self s t → Step s t

  -- The systems that a new gate can come to.
  pub data Reach (owner approver : AccountId) : System → Type 0 where
    starts : Reach owner approver (start owner approver)
    steps : {s t : System} → Reach owner approver s → Step s t → Reach owner approver t
