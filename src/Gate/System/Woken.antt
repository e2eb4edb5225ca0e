-- ===== src/Gate/System/Woken.antt =====
-- What a resume leaves for its callback, and what the callback does, in the gate's system
-- (contracts/gate/src/lib.rs).
use sequential_near.Prelude.{
  of_ok_eq, ℕ, ◌≡◌, ◌∙◌, sym, refl, Bool, true, false, Option, none, some, List, [], ◌∷◌, Result,
  ok, err, arith, inl, inr, Option-cases,
}
use sequential_near.Host.{Bytes, AccountId, YieldId, Call}
use sequential_near.Gate.Types.{CallbackArgs, PendingIntent, ResumeSignal, Json, JsonLaws}
use sequential_near.Gate.State.{Gate, Panic}
use sequential_near.Gate.Callback.{PromiseError}
use sequential_near.Gate.Callback.Outcomes
use sequential_near.Gate.Callback.Outcomes.{dispatch_of, callback_done, on_intent_resumed-done}
use sequential_near.Gate.Chain.Steps.{IsResumable}
use sequential_near.Gate.Run.{lifted}
use sequential_near.Gate.System.{
  System, dispatched, next_links, fate_of, take_yield, is_held, wake, fire, IsServed,
}
use sequential_near.Gate.System.Changes.{Ending, refuses, dispatches, links_of}

pub taken_of :
    (y : YieldId) (held : List (YieldId × Bytes))
    → is_held y held ≡ true
    → (t : Bytes × List (YieldId × Bytes)) × (take_yield y held ≡ some t)
unfolding is_held
taken_of y held h = elim (Option-cases (take_yield y held)) [
  | inl e ↦ absurd (ground arith)
  | inr found ↦ found
]

pub callback_done-Ending :
    (c : Call) (a : CallbackArgs) (signal : Result PromiseError ResumeSignal) (g : Gate)
    → let d = callback_done c a signal g in
      Ending a signal g d.gate (fate_of d.result) (next_links d.result)
callback_done-Ending c a (err e) g = refuses (λ given is. cc is) refl refl refl
callback_done-Ending c a (ok signal) g =
    decided signal.approve signal.sequence_number signal.next_intent_id
  where
    fate_lem :
        (c : Call) (a : CallbackArgs) (seq next : Option ℕ)
        → fate_of (Outcomes.dispatched c a seq next) ≡ dispatched (dispatch_of a)
    fate_lem c a seq none = refl
    fate_lem c a seq (some id) = refl

    links_lem :
        (c : Call) (a : CallbackArgs) (seq next : Option ℕ)
        → next_links (Outcomes.dispatched c a seq next) ≡ links_of seq next
    links_lem c a seq none = refl
    links_lem c a seq (some id) = refl

    decided :
        (approve : Bool) (seq next : Option ℕ)
        → let signal : ResumeSignal = record {
          approve = approve;
          sequence_number = seq;
          next_intent_id = next;
        } in
          let d = callback_done c a (ok signal) g in
          Ending a (ok signal) g d.gate (fate_of d.result) (next_links d.result)
    decided true seq next =
        dispatches _ refl refl (fate_lem c a seq next) (links_lem c a seq next) refl
    decided false seq next =
        refuses (λ given is. of_ok_eq (λ (x : ResumeSignal). x.approve ≡ false) is refl) refl refl
          refl

wake-gate :
    (o : Option (Bytes × List (YieldId × Bytes))) (signal : Option ResumeSignal) (s : System)
    → (wake o signal s).gate ≡ s.gate
wake-gate none signal s = refl
wake-gate (some t) none s = refl
wake-gate (some t) (some signal) s = refl

wake-approvals :
    (o : Option (Bytes × List (YieldId × Bytes))) (signal : Option ResumeSignal) (s : System)
    → (wake o signal s).approvals ≡ s.approvals
wake-approvals none signal s = refl
wake-approvals (some t) none s = refl
wake-approvals (some t) (some signal) s = refl

module _ (j : Json) where
  pub fire_one :
      (s : System) (y : YieldId) (payload bytes : Bytes) (rest : List (YieldId × Bytes))
      (signal : ResumeSignal)
      → take_yield y s.held ≡ some (bytes, rest)
      → j.signal_from_slice payload ≡ some signal
      → fire j ((y, payload) ∷ []) s
        ≡ record s { held = rest; callbacks = (bytes, ok signal) ∷ s.callbacks }
  fire_one s y payload bytes rest signal taken reads = rw (fire, taken) (rw reads)

  -- To wake a yield changes neither the gate nor the approvals.
  pub fire-gate : (rs : List (YieldId × Bytes)) (s : System) → (fire j rs s).gate ≡ s.gate
  fire-gate [] s = refl
  fire-gate ((y, payload) ∷ rs) s =
      fire-gate rs _ ∙ wake-gate (take_yield y s.held) (j.signal_from_slice payload) s

  pub fire-approvals :
      (rs : List (YieldId × Bytes)) (s : System) → (fire j rs s).approvals ≡ s.approvals
  fire-approvals [] s = refl
  fire-approvals ((y, payload) ∷ rs) s =
      fire-approvals rs _ ∙ wake-approvals (take_yield y s.held) (j.signal_from_slice payload) s

  -- A resume wakes the yield that it names.
  pub fire_resumed :
      JsonLaws j
      → (self : AccountId) (s : System) (c : Call) (id : ℕ) (signal : ResumeSignal)
        (p : PendingIntent) (payload : Bytes) (g : Gate) (links : List (ℕ × ℕ)) (approvals : List ℕ)
      → IsServed self c s
      → IsResumable j c id signal s.gate p payload
      → (bytes : Bytes) × (rest : List (YieldId × Bytes)) × (take_yield p.yield_id s.held
          ≡ some (bytes, rest))
        × (fire j
              ((p.yield_id, payload) ∷ [])
              (record s { gate = g; links = links; approvals = approvals })
            ≡ record s {
              gate = g;
              held = rest;
              callbacks = (bytes, ok signal) ∷ s.callbacks;
              links = links;
              approvals = approvals;
            })
  fire_resumed laws self s c id signal p payload g links approvals served r =
      let ((bytes, rest), taken) =
        taken_of p.yield_id s.held (sym (served.alive p.yield_id) ∙ r.alive) in
      (
        bytes,
        rest,
        taken,
        fire_one (record s { gate = g; links = links; approvals = approvals }) p.yield_id payload
            bytes rest signal taken (laws.signal_law signal payload r.packed),
      )

pub lifted-eq-ok : {A : Type 0} (r : Result Panic A) {a : A} → lifted r ≡ ok a → r ≡ ok a
lifted-eq-ok (ok x) h = cc
lifted-eq-ok (err e) h = cc
