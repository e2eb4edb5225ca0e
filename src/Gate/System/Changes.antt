-- ===== src/Gate/System/Changes.antt =====
-- What a step changes among the gate (contracts/gate/src/lib.rs), its yields, and the calls that are
-- due, in the terms that the invariants read.
use sequential_near.Prelude.{
  length, total, first, err, ℕ, ◌+◌, ◌≤◌, ◌≡◌, ◌≢◌, ◌⊎◌, true, false, Option, none, some, List, [],
  ◌∷◌, ◌++◌, Result, ok, err, All, Holds, nat_key, text_key,
}
use sequential_near.Prelude.Map.{lookup, remove}
use sequential_near.Host.{Bytes, YieldId, Call}
use sequential_near.Borsh.{Borsh}
use sequential_near.Nep366.{Crypto, FunctionCallAction, SignedDelegateAction, function_call, verify}
use sequential_near.Gate.Types.{PendingIntent, ResumeSignal, CallbackArgs, Json}
use sequential_near.Gate.State.{Gate}
use sequential_near.Gate.Callback.{PromiseError}
use sequential_near.Gate.Callback.Outcomes.{dispatch_of, successor}
use sequential_near.Gate.Submit.Accepts.{callback_of, submitted_gate}
use sequential_near.Gate.Run.{Halt}
use sequential_near.Gate.System.{System, Fate, dispatched, rejected, failed, take_yield, answer}

-- A call of the owner leaves the intents and the counters alone; the tail may be cleared where `R` holds.
pub record IsQuiet (R : Type 0) (g g' : Gate) : Type 0 where
  pub pending : g'.pending ≡ g.pending
  pub next_id : g'.next_intent_id ≡ g.next_intent_id
  pub submitted : g'.intents_submitted ≡ g.intents_submitted
  pub dispatched : g'.intents_dispatched ≡ g.intents_dispatched
  pub rejected : g'.intents_rejected ≡ g.intents_rejected
  pub tail : (g'.batch_chain_tail ≡ g.batch_chain_tail) ⊎ (R × (g'.batch_chain_tail ≡ []))

-- A resume takes its intent off, and leaves the counters of the intents alone.
pub record IsTaken (id : ℕ) (g g' : Gate) : Type 0 where
  pub pending : g'.pending ≡ remove id g.pending
  pub next_id : g'.next_intent_id ≡ g.next_intent_id
  pub submitted : g'.intents_submitted ≡ g.intents_submitted
  pub dispatched : g'.intents_dispatched ≡ g.intents_dispatched
  pub rejected : g'.intents_rejected ≡ g.intents_rejected

abbrev pub IsAtMost : ℕ → Option ℕ → Type 0
IsAtMost n none = Unit
IsAtMost n (some m) = m ≤ n

-- All of a batch's tail was named by the approver.
abbrev pub IsNamed : List ℕ → List ℕ → Type 0
IsNamed approvals ids = All (λ id. Holds id approvals) ids

-- The successor that a signal names.
abbrev pub next_of : Result PromiseError ResumeSignal → Option ℕ
next_of (err e) = none
next_of (ok signal) = signal.next_intent_id

abbrev pub has_next : Option ℕ → ℕ
has_next none = 0
has_next (some id) = 1

-- At most one link of a batch is under way, as a link that is due or as a callback that names a
-- successor; and what it names is the front of the tail.
pub record IsSingle (links : List (ℕ × ℕ))
    (callbacks : List (Bytes × Result PromiseError ResumeSignal)) (tail : List ℕ) : Type 0 where
  pub one :
      length links
        + total (λ (r : Bytes × Result PromiseError ResumeSignal). has_next (next_of r.1)) callbacks
      ≤ 1
  pub due : All (λ (l : ℕ × ℕ). first tail ≡ some l.0) links
  pub named :
      All
        (λ (r : Bytes × Result PromiseError ResumeSignal).
          (id : ℕ) → next_of r.1 ≡ some id → first tail ≡ some id)
        callbacks

-- Which of the resume paths it was, by the batch that is under way: none of its ids, a new batch, or the
-- link for the front of its tail.
pub data Way (s : System) (id : ℕ) (signal : ResumeSignal) (tail : List ℕ) (links : List (ℕ × ℕ))
    : Type 0 where
  alone :
      signal.next_intent_id ≡ none
      → tail ≡ s.gate.batch_chain_tail
      → links ≡ s.links
      → Way s id signal tail links
  begins : s.gate.batch_chain_tail ≡ [] → Way s id signal tail links
  follows :
      (front back : List (ℕ × ℕ)) (seq : ℕ)
      → s.links ≡ front ++ (id, seq) ∷ back
      → s.gate.batch_chain_tail ≡ id ∷ tail
      → links ≡ front ++ back
      → Way s id signal tail links

-- What a resume with this signal says of the approver's calls and of the numbers of the chains.
pub record IsBacked (s : System) (id : ℕ) (signal : ResumeSignal) (tail approvals : List ℕ)
    (links : List (ℕ × ℕ)) : Type 0 where
  pub way : Way s id signal tail links
  pub grows : (i : ℕ) → Holds i s.approvals → Holds i approvals
  pub named :
      IsNamed s.approvals s.gate.batch_chain_tail
      → (signal.approve ≡ true → Holds id approvals) × IsNamed approvals tail
  pub numbers :
      (n : ℕ)
      → All (λ l. l.1 ≤ n) s.links
      → All (λ l. l.1 ≤ n) links × IsAtMost n signal.sequence_number
  pub single :
      (bytes : Bytes)
      → IsSingle s.links s.callbacks s.gate.batch_chain_tail
      → IsSingle links ((bytes, ok signal) ∷ s.callbacks) tail

-- The link behind a dispatched call.
abbrev pub links_of : Option ℕ → Option ℕ → List (ℕ × ℕ)
links_of seq none = []
links_of seq (some next_id) = (next_id, successor seq) ∷ []

-- How the callback ends the intent of the arguments `a`, by its signal.
pub data Ending (a : CallbackArgs) (signal : Result PromiseError ResumeSignal) (g g' : Gate)
    (fate : Fate) (links : List (ℕ × ℕ)) : Type 0 where
  refuses :
      ((given : ResumeSignal) → signal ≡ ok given → given.approve ≡ false)
      → fate ≡ rejected
      → links ≡ []
      → g' ≡ record g {
        pending = remove a.intent_id g.pending;
        intents_rejected = g.intents_rejected + 1;
      }
      → Ending a signal g g' fate links
  dispatches :
      (given : ResumeSignal)
      → signal ≡ ok given
      → given.approve ≡ true
      → fate ≡ dispatched (dispatch_of a)
      → links ≡ links_of given.sequence_number given.next_intent_id
      → g' ≡ record g {
        pending = remove a.intent_id g.pending;
        intents_dispatched = g.intents_dispatched + 1;
      }
      → Ending a signal g g' fate links

-- What a step can change; `R` says whether it may clear the tail.
module _ (b : Borsh) (k : Crypto) (j : Json) (R : Type 0) where
  pub data Change : System → System → Type 0 where
    added :
        (s : System) (c : Call) (signed : SignedDelegateAction) (fc : FunctionCallAction)
        (bytes : Bytes)
        → verify b k signed ≡ true
        → signed.delegate_action.actions ≡ function_call fc ∷ []
        → j.args_to_vec (callback_of s.gate signed.delegate_action fc) ≡ some bytes
        → ((id : ℕ) (p : PendingIntent)
            → lookup id s.gate.pending ≡ some p
            → p.yield_id ≢ c.fresh_yield)
        → Change s (record s {
          gate = submitted_gate c s.gate signed.delegate_action fc;
          held = (c.fresh_yield, bytes) ∷ s.held;
        })
    managed : (s : System) (g : Gate) → IsQuiet R s.gate g → Change s (record s { gate = g })
    fired :
        (s : System) (id : ℕ) (p : PendingIntent) (signal : ResumeSignal) (bytes : Bytes)
        (rest : List (YieldId × Bytes)) (g : Gate) (links : List (ℕ × ℕ)) (approvals : List ℕ)
        → lookup id s.gate.pending ≡ some p
        → take_yield p.yield_id s.held ≡ some (bytes, rest)
        → IsTaken id s.gate g
        → IsBacked s id signal g.batch_chain_tail approvals links
        → Change s (record s {
          gate = g;
          held = rest;
          callbacks = (bytes, ok signal) ∷ s.callbacks;
          links = links;
          approvals = approvals;
        })
    timed_out :
        (s : System) (y : YieldId) (bytes : Bytes) (rest : List (YieldId × Bytes))
        (reason : PromiseError)
        → take_yield y s.held ≡ some (bytes, rest)
        → Change s (record s { held = rest; callbacks = (bytes, err reason) ∷ s.callbacks })
    answered :
        (s : System) (front back : List (Bytes × Result PromiseError ResumeSignal)) (bytes : Bytes)
        (signal : Result PromiseError ResumeSignal) (a : CallbackArgs) (g : Gate) (fate : Fate)
        (links : List (ℕ × ℕ))
        → s.callbacks ≡ front ++ (bytes, signal) ∷ back
        → j.args_from_slice bytes ≡ some a
        → Ending a signal s.gate g fate links
        → Change s (record s {
          gate = g;
          callbacks = front ++ back;
          links = links ++ s.links;
          settled = (bytes, fate) ∷ s.settled;
        })
    unanswered :
        (s : System) (front back : List (Bytes × Result PromiseError ResumeSignal)) (bytes : Bytes)
        (signal : Result PromiseError ResumeSignal) (c : Call) (h : Halt)
        → s.callbacks ≡ front ++ (bytes, signal) ∷ back
        → c.predecessor ≡ c.current_account
        → answer j c bytes signal s.gate ≡ err h
        → Change s (record s { callbacks = front ++ back; settled = (bytes, failed) ∷ s.settled })
    unlinked :
        (s : System) (front back : List (ℕ × ℕ)) (l : ℕ × ℕ)
        → s.links ≡ front ++ l ∷ back
        → Change s (record s { links = front ++ back })
