-- ===== src/Gate/System/Approvals.antt =====
-- What the gate dispatches (contracts/gate/src/lib.rs) was named for approval in a call of a resume path
-- that went through.
use sequential_near.Prelude.{
  ℕ, ◌≡◌, ◌∙◌, sym, ap, true, some, List, Result, ok, All, All-map, All-middle, Holds, inl, inr,
}
use mathlib.Core.Path.{subst}
use sequential_near.Host.{Bytes, AccountId}
use sequential_near.Borsh.{Borsh}
use sequential_near.Nep366.{Crypto}
use sequential_near.Gate.Types.{ResumeSignal, CallbackArgs, Json, JsonLaws}
use sequential_near.Gate.State
use sequential_near.Gate.State.{Promise, new}
use sequential_near.Gate.Callback.{PromiseError}
use sequential_near.Gate.Callback.Outcomes.{dispatch_of}
use sequential_near.Gate.System.{System, Fate, dispatched, start, Reach, starts, steps}
use sequential_near.Gate.System.Changes.{
  IsNamed, Ending, refuses, dispatches, Change, added, managed, fired, timed_out, answered,
  unanswered, unlinked,
}
use sequential_near.Gate.System.Origins.{Step-Change}
use sequential_near.Gate.System.Yields.{IsMatched, fired_id, Reach-IsMatched}

module _ (j : Json) where
  -- An approval that waits for its callback was given for this intent.
  abbrev pub IsDue : List ℕ → Bytes → Result PromiseError ResumeSignal → Type 0
  IsDue approvals bytes signal =
      (given : ResumeSignal) (a : CallbackArgs)
      → signal ≡ ok given
      → given.approve ≡ true
      → j.args_from_slice bytes ≡ some a
      → Holds a.intent_id approvals

  -- A call that was made is that of an approved intent.
  abbrev pub IsMade : List ℕ → Bytes → Fate → Type 0
  IsMade approvals bytes fate =
      (call : Promise)
      → fate ≡ dispatched call
      → (a : CallbackArgs) × (j.args_from_slice bytes ≡ some a)
        × (call ≡ dispatch_of a)
        × Holds a.intent_id approvals

  pub record IsApproved (s : System) : Type 0 where
    pub tail : IsNamed s.approvals s.gate.batch_chain_tail
    pub callbacks :
        All
          (λ (r : Bytes × Result PromiseError ResumeSignal). IsDue s.approvals r.0 r.1)
          s.callbacks
    pub settled : All (λ (r : Bytes × Fate). IsMade s.approvals r.0 r.1) s.settled

  IsDue-grow :
      (xs ys : List ℕ) (callbacks : List (Bytes × Result PromiseError ResumeSignal))
      → ((i : ℕ) → Holds i xs → Holds i ys)
      → All (λ (r : Bytes × Result PromiseError ResumeSignal). IsDue xs r.0 r.1) callbacks
      → All (λ (r : Bytes × Result PromiseError ResumeSignal). IsDue ys r.0 r.1) callbacks
  IsDue-grow xs ys callbacks grow v =
      All-map _ _ callbacks
        (λ r h given a is sure reads. grow a.intent_id (h given a is sure reads)) v

  IsMade-grow :
      (xs ys : List ℕ) (settled : List (Bytes × Fate))
      → ((i : ℕ) → Holds i xs → Holds i ys)
      → All (λ (r : Bytes × Fate). IsMade xs r.0 r.1) settled
      → All (λ (r : Bytes × Fate). IsMade ys r.0 r.1) settled
  IsMade-grow xs ys settled grow v =
      All-map _ _ settled
        (λ r h call is.
          let (a, reads, same, held) = h call is in (a, reads, same, grow a.intent_id held))
        v

  -- The callback makes a call only on an approval.
  Ending-IsMade :
      (approvals : List ℕ) (bytes : Bytes) {a : CallbackArgs}
      {signal : Result PromiseError ResumeSignal} {g g' : State.Gate} {fate : Fate}
      {links : List (ℕ × ℕ)}
      → j.args_from_slice bytes ≡ some a
      → Ending a signal g g' fate links
      → IsDue approvals bytes signal
      → IsMade approvals bytes fate
  Ending-IsMade approvals bytes reads (refuses _ f l e) due call is = cc (f, is)
  Ending-IsMade approvals bytes {a} reads (dispatches given is_ok sure f l e) due call is =
      (a, reads, cc (f, is), due given a is_ok sure reads)

  Ending-tail :
      {a : CallbackArgs} {signal : Result PromiseError ResumeSignal} {g g' : State.Gate}
      {fate : Fate} {links : List (ℕ × ℕ)}
      → Ending a signal g g' fate links
      → g'.batch_chain_tail ≡ g.batch_chain_tail
  Ending-tail (refuses _ _ _ e) = cc e
  Ending-tail (dispatches _ _ _ _ _ e) = cc e

module _ (b : Borsh) (k : Crypto) (j : Json) where
  Change-IsApproved :
      {s t : System} → Change b k j (Unit {0}) s t → IsMatched j s → IsApproved j s → IsApproved j t
  Change-IsApproved (added s c signed fc bytes verified single packed fresh) m v = record {
    tail = v.tail;
    callbacks = v.callbacks;
    settled = v.settled;
  }
  Change-IsApproved (managed s g is) m v = record {
    tail = elim is.tail [
      | inl same ↦ subst (IsNamed s.approvals) (sym same) v.tail
      | inr (reset, empty) ↦ subst (IsNamed s.approvals) (sym empty) tt
    ];
    callbacks = v.callbacks;
    settled = v.settled;
  }
  Change-IsApproved (fired s id p signal bytes rest g links approvals found taken is backed) m v =
      let (a, reads, same, call) = fired_id j s id p bytes rest m found taken in
      let (named, tail) = backed.named v.tail in
      record {
        tail = tail;
        callbacks = (
          (λ given other is_ok sure also.
              let given_is : signal ≡ given = cc is_ok in
              let other_is : other ≡ a = cc (also, reads) in
              subst (λ i. Holds i approvals)
                (sym same ∙ ap (λ (x : CallbackArgs). x.intent_id) (sym other_is))
                (named (ap (λ (x : ResumeSignal). x.approve) given_is ∙ sure))),
          IsDue-grow j s.approvals approvals s.callbacks backed.grows v.callbacks,
        );
        settled = IsMade-grow j s.approvals approvals s.settled backed.grows v.settled;
      }
  Change-IsApproved (timed_out s y bytes rest reason taken) m v = record {
    tail = v.tail;
    callbacks = ((λ given a is sure reads. cc is), v.callbacks);
    settled = v.settled;
  }
  Change-IsApproved (answered s front back bytes signal a g fate links split reads e) m v =
      let (due, others) = All-middle _ front back (subst (All _) split v.callbacks) in
      record {
        tail = subst (IsNamed s.approvals) (sym (Ending-tail j e)) v.tail;
        callbacks = others;
        settled = (Ending-IsMade j s.approvals bytes reads e due, v.settled);
      }
  Change-IsApproved (unanswered s front back bytes signal c h split own fails) m v =
      let (due, others) = All-middle _ front back (subst (All _) split v.callbacks) in
      record { tail = v.tail; callbacks = others; settled = ((λ call is. cc is), v.settled) }
  Change-IsApproved (unlinked s front back l split) m v = record {
    tail = v.tail;
    callbacks = v.callbacks;
    settled = v.settled;
  }

  start-IsApproved : (owner approver : AccountId) → IsApproved j (start owner approver)
  unfolding new
  start-IsApproved owner approver = record { tail = tt; callbacks = tt; settled = tt }

  pub Reach-IsApproved :
      (self owner approver : AccountId)
      → JsonLaws j
      → {s : System} → Reach b k j self owner approver s
      → IsApproved j s
  Reach-IsApproved self owner approver laws starts = start-IsApproved owner approver
  Reach-IsApproved self owner approver laws (steps r st) =
      Change-IsApproved (Step-Change b k j laws self st)
        (Reach-IsMatched b k j self owner approver laws r)
        (Reach-IsApproved self owner approver laws r)
