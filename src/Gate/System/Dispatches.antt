-- ===== src/Gate/System/Dispatches.antt =====
-- An intent of the gate (contracts/gate/src/lib.rs) that was approved in time is dispatched.
use sequential_near.Prelude.{
  ℕ, ◌≡◌, ◌≢◌, ◌∙◌, sym, ap, refl, inl, inr, true, false, some, List, ◌∷◌, Result, ok, All-lookup,
  Holds, Holds-middle, nat_key,
}
use mathlib.Core.Path.{subst}
use sequential_near.Prelude.Map.{lookup}
use sequential_near.Host.{Bytes, AccountId, Call}
use sequential_near.Borsh.{Borsh}
use sequential_near.Nep366.{Crypto}
use sequential_near.Gate.Types.{PendingIntent, ResumeSignal, CallbackArgs, Json, JsonLaws}
use sequential_near.Gate.State.{Gate, Done}
use sequential_near.Gate.Callback.{PromiseError}
use sequential_near.Gate.Callback.Outcomes.{dispatch_of}
use sequential_near.Gate.Chain.{resume_intent}
use sequential_near.Gate.Chain.Steps.{single_signal, resume_intent_iff}
use sequential_near.Gate.System.{
  System, fire, IsServed, Fate, dispatched, failed, Moves, rests, moves, Reach, runs,
}
use sequential_near.Gate.System.Changes.{
  Ending, refuses, dispatches, Change, added, managed, fired, timed_out, answered, unanswered,
  unlinked,
}
use sequential_near.Gate.System.Woken.{taken_of, fire_one}
use sequential_near.Gate.System.Origins.{Step-Change}
use sequential_near.Gate.System.Yields.{call_of_intent, fired_id, Reach-IsMatched}
use sequential_near.Gate.System.Ends.{IsOver}

-- The intent of these bytes is approved and waits for its callback, or was dispatched; or its callback
-- has panicked.
pub data IsUnderWay (bytes : Bytes) (signal : ResumeSignal) (a : CallbackArgs) (s : System)
    : Type 0 where
  due : Holds (bytes, ok signal) s.callbacks → IsUnderWay bytes signal a s
  made : Holds (bytes, dispatched (dispatch_of a)) s.settled → IsUnderWay bytes signal a s
  lost : Holds (bytes, failed) s.settled → IsUnderWay bytes signal a s

module _ (b : Borsh) (k : Crypto) (j : Json) where
  Ending-dispatched :
      (signal : ResumeSignal) {a a' : CallbackArgs} {other : Result PromiseError ResumeSignal}
      {g g' : Gate} {fate : Fate} {links : List (ℕ × ℕ)}
      → signal.approve ≡ true
      → ok signal ≡ other
      → a' ≡ a
      → Ending a' other g g' fate links
      → fate ≡ dispatched (dispatch_of a)
  Ending-dispatched signal approved same args (refuses never f l e) =
      let both : true ≡ false = sym approved ∙ never signal (sym same) in cc both
  Ending-dispatched signal approved same args (dispatches given is sure f l e) =
      f ∙ ap (λ x. dispatched (dispatch_of x)) args

  -- Nothing that has ended is forgotten.
  settled_kept :
      {s t : System}
      → Change b k j (Unit {0}) s t
      → (end : Bytes × Fate) → Holds end s.settled
      → Holds end t.settled
  settled_kept (added s _ _ _ _ _ _ _ _) end h = h
  settled_kept (managed s _ _) end h = h
  settled_kept (fired s _ _ _ _ _ _ _ _ _ _ _ _) end h = h
  settled_kept (timed_out s _ _ _ _ _) end h = h
  settled_kept (answered s _ _ _ _ _ _ _ _ _ _ _) end h = inr h
  settled_kept (unanswered s _ _ _ _ _ _ _ _ _) end h = inr h
  settled_kept (unlinked s _ _ _ _) end h = h

  Change-IsUnderWay :
      (bytes : Bytes) (signal : ResumeSignal) (a : CallbackArgs)
      → signal.approve ≡ true
      → j.args_from_slice bytes ≡ some a
      → {s t : System} → Change b k j (Unit {0}) s t
      → IsUnderWay bytes signal a s
      → IsUnderWay bytes signal a t
  Change-IsUnderWay bytes signal a approved reads ch (made h) = made (settled_kept ch _ h)
  Change-IsUnderWay bytes signal a approved reads ch (lost h) = lost (settled_kept ch _ h)
  Change-IsUnderWay bytes signal a approved reads (added s _ _ _ _ _ _ _ _) (due h) = due h
  Change-IsUnderWay bytes signal a approved reads (managed s _ _) (due h) = due h
  Change-IsUnderWay bytes signal a approved reads (fired s _ _ _ _ _ _ _ _ _ _ _ _) (due h) =
      due (inr h)
  Change-IsUnderWay bytes signal a approved reads (timed_out s _ _ _ _ _) (due h) = due (inr h)
  Change-IsUnderWay bytes signal a approved reads
        (answered s front back other given a' g fate links split also e) (due h) =
      elim (Holds-middle _ _ front back (subst (Holds (bytes, ok signal)) split h)) [
        | inl same ↦
            let same_bytes : bytes ≡ other = cc same in
            let same_signal : ok signal ≡ given = cc same in
            let args : a' ≡ a = cc (reads, also, same_bytes) in
            made (inl (cc (same_bytes, Ending-dispatched signal approved same_signal args e)))
        | inr later ↦ due later
      ]
  Change-IsUnderWay bytes signal a approved reads
        (unanswered s front back other given c h split own fails) (due held) =
      elim (Holds-middle _ _ front back (subst (Holds (bytes, ok signal)) split held)) [
        | inl same ↦ lost (inl (cc same))
        | inr later ↦ due later
      ]
  Change-IsUnderWay bytes signal a approved reads (unlinked s _ _ _ _) (due h) = due h

module _ (b : Borsh) (k : Crypto) (j : Json) (self owner approver : AccountId) where
  Moves-IsUnderWay :
      JsonLaws j
      → (bytes : Bytes) (signal : ResumeSignal) (a : CallbackArgs) → signal.approve ≡ true
      → j.args_from_slice bytes ≡ some a
      → {s t : System} → Moves j self s t
      → IsUnderWay bytes signal a s
      → IsUnderWay bytes signal a t
  Moves-IsUnderWay laws bytes signal a approved reads (rests s) u = u
  Moves-IsUnderWay laws bytes signal a approved reads (moves m ms) u =
      Moves-IsUnderWay laws bytes signal a approved reads ms (
        Change-IsUnderWay b k j bytes signal a approved reads (Step-Change b k j laws self (runs m))
          u)

  over-dispatched :
      (bytes : Bytes) (signal : ResumeSignal) (a : CallbackArgs) (t : System)
      → IsOver b k j self owner approver t
      → IsUnderWay bytes signal a t
      → Holds (bytes, dispatched (dispatch_of a)) t.settled
  over-dispatched bytes signal a t over (due h) =
      absurd (subst (Holds (bytes, ok signal)) over.drained.callbacks h)
  over-dispatched bytes signal a t over (made h) = h
  over-dispatched bytes signal a t over (lost h) =
      absurd (All-lookup (λ (r : Bytes × Fate). r.1 ≢ failed) t.settled over.unfailed h refl)

  -- Where JSON reads back what it wrote: what the approver resumes with an approval is dispatched:
  -- when `resume_intent` goes through in a system that a new gate can come to, the intent was
  -- pending, and however the runtime then goes on, once every intent has ended, the call of that
  -- pending intent is among those that were made.
  pub approved-dispatched :
      JsonLaws j
      → (s t : System) → Reach b k j self owner approver s
      → (c : Call) (id : ℕ) (d : Done (Unit {0})) → IsServed self c s
      → resume_intent j c id true s.gate ≡ ok d
      → Moves j self (fire j d.resumed (record s { gate = d.gate; approvals = id ∷ s.approvals })) t
      → IsOver b k j self owner approver t
      → (p : PendingIntent) × (bytes : Bytes) × (lookup id s.gate.pending ≡ some p)
        × Holds (bytes, dispatched (call_of_intent p)) t.settled
  approved-dispatched laws s t r c id d served h ms over =
      let (tier, p, payload, a, same) = (resume_intent_iff j c id true s.gate d).0 h in
      let ((bytes, rest), taken) =
        taken_of p.yield_id s.held (sym (served.alive p.yield_id) ∙ a.resumable.alive) in
      let (args, reads, id_is, call) =
        fired_id j s id p bytes rest (Reach-IsMatched b k j self owner approver laws r)
          a.resumable.found taken in
      let woken =
        fire_one j (record s { gate = _; approvals = id ∷ s.approvals }) p.yield_id payload bytes
          rest (single_signal true) taken
          (laws.signal_law (single_signal true) payload a.resumable.packed) in
      let at_start : IsUnderWay bytes (single_signal true) args
          (fire j d.resumed (record s { gate = d.gate; approvals = id ∷ s.approvals })) =
        subst
          (λ (x : Done (Unit {0})).
            IsUnderWay bytes (single_signal true) args
              (fire j x.resumed (record s { gate = x.gate; approvals = id ∷ s.approvals })))
          (sym same)
          (subst (IsUnderWay bytes (single_signal true) args) (sym woken) (due (inl refl))) in
      let ended =
        over-dispatched bytes (single_signal true) args t over
          (Moves-IsUnderWay laws bytes (single_signal true) args refl reads ms at_start) in
      (p, bytes, a.resumable.found, subst (λ x. Holds (bytes, dispatched x) t.settled) call ended)
