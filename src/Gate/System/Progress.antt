-- ===== src/Gate/System/Progress.antt =====
-- How far a batch of the gate (contracts/gate/src/lib.rs) has come: each step keeps that the calls of the
-- intents that have left its tail were made, but for the latest.
use sequential_near.Prelude.{
  ℕ, ◌≡◌, ◌≢◌, ◌∙◌, sym, ap, refl, inl, inr, Option, none, some, List, [], ◌∷◌, ◌++◌, Result, ok,
  All, All-map, All-append, All-middle, Holds, append_assoc,
}
use mathlib.Core.Path.{subst}
use sequential_near.Host.{Bytes}
use sequential_near.Borsh.{Borsh}
use sequential_near.Nep366.{Crypto}
use sequential_near.Gate.Types.{ResumeSignal, CallbackArgs, Json}
use sequential_near.Gate.State.{Gate}
use sequential_near.Gate.Callback.{PromiseError}
use sequential_near.Gate.Callback.Outcomes.{dispatch_of}
use sequential_near.Gate.System.{System, Fate, dispatched, failed}
use sequential_near.Gate.System.Changes.{
  next_of, links_of, Ending, refuses, dispatches, Way, alone, begins, follows, Change, added,
  managed, fired, timed_out, answered, unanswered, unlinked,
}
use sequential_near.Gate.System.Single.{unnamed, only_link, Ending-tail}
use sequential_near.Gate.System.Yields.{IsMatched, fired_id}
use sequential_near.Gate.System.InFlight.{IsSingleSystem}

module _ (j : Json) where
  -- The arguments are those of this intent.
  abbrev pub IsIntent : ℕ → Bytes → Type 0
  IsIntent id bytes = (a : CallbackArgs) × (j.args_from_slice bytes ≡ some a) × (a.intent_id ≡ id)

  -- The intent has ended, and its call was made.
  pub record IsMade (settled : List (Bytes × Fate)) (id : ℕ) : Type 0 where
    pub bytes : Bytes
    pub a : CallbackArgs
    pub reads : j.args_from_slice bytes ≡ some a
    pub same : a.intent_id ≡ id
    pub made : Holds (bytes, dispatched (dispatch_of a)) settled

  -- How far the batch of `ids` has come: `latest` is the id that has left the tail last.
  pub record IsInOrder (ids tail : List ℕ) (links : List (ℕ × ℕ))
      (callbacks : List (Bytes × Result PromiseError ResumeSignal)) (settled : List (Bytes × Fate))
      : Type 0 where
    pub former : List ℕ
    pub latest : ℕ
    pub split : ids ≡ former ++ latest ∷ tail
    pub made : All (IsMade settled) former
    pub behind : All (λ (l : ℕ × ℕ). IsMade settled latest) links
    pub called :
        All
          (λ (r : Bytes × Result PromiseError ResumeSignal).
            (n : ℕ) → next_of r.1 ≡ some n → IsIntent latest r.0)
          callbacks

  abbrev pub IsInOrderSystem : List ℕ → System → Type 0
  IsInOrderSystem ids s = IsInOrder ids s.gate.batch_chain_tail s.links s.callbacks s.settled

  IsMade-kept :
      (end : Bytes × Fate) (settled : List (Bytes × Fate)) (id : ℕ)
      → IsMade settled id
      → IsMade (end ∷ settled) id
  IsMade-kept end settled id h = record {
    bytes = h.bytes;
    a = h.a;
    reads = h.reads;
    same = h.same;
    made = inr h.made;
  }

  -- A link stands behind a call that was made.
  Ending-IsMade :
      {a : CallbackArgs} {signal : Result PromiseError ResumeSignal} {g g' : Gate} {fate : Fate}
      {links : List (ℕ × ℕ)} (bytes : Bytes) (settled : List (Bytes × Fate)) (latest : ℕ)
      → Ending a signal g g' fate links
      → j.args_from_slice bytes ≡ some a
      → ((n : ℕ) → next_of signal ≡ some n → IsIntent latest bytes)
      → All (λ (l : ℕ × ℕ). IsMade ((bytes, fate) ∷ settled) latest) links
  Ending-IsMade bytes settled latest (refuses _ f l e) reads named = subst (All _) (sym l) tt
  Ending-IsMade {a = a} {fate = fate} bytes settled latest (dispatches given is sure f l e) reads
        named =
      subst (All _) (sym l)
        (by_next given.sequence_number given.next_intent_id (λ n h. named n (ap next_of is ∙ h)))
    where
      by_next :
          (seq next : Option ℕ)
          → ((n : ℕ) → next ≡ some n → IsIntent latest bytes)
          → All (λ (l : ℕ × ℕ). IsMade ((bytes, fate) ∷ settled) latest) (links_of seq next)
      by_next seq none h = tt
      by_next seq (some n) h =
          let (a', reads', same) = h n refl in
          (
            record {
              bytes = bytes;
              a = a;
              reads = reads;
              same = cc (reads, reads', same);
              made = inl (ap (λ x. (bytes, x)) (sym f));
            },
            tt,
          )

  -- One more has ended, and no link is new.
  settled-IsInOrder :
      (ids tail : List ℕ) (links : List (ℕ × ℕ))
      (callbacks front back : List (Bytes × Result PromiseError ResumeSignal))
      (r : Bytes × Result PromiseError ResumeSignal) (settled : List (Bytes × Fate))
      (end : Bytes × Fate) (more : List (ℕ × ℕ))
      → callbacks ≡ front ++ r ∷ back
      → (h : IsInOrder ids tail links callbacks settled)
      → All (λ (l : ℕ × ℕ). IsMade (end ∷ settled) h.latest) more
      → IsInOrder ids tail (more ++ links) (front ++ back) (end ∷ settled)
  settled-IsInOrder ids tail links callbacks front back r settled end more split h new =
      let kept = IsMade-kept end settled in
      record {
        former = h.former;
        latest = h.latest;
        split = h.split;
        made = All-map _ _ h.former kept h.made;
        behind = All-append _ more links new (All-map _ _ links (λ l. kept h.latest) h.behind);
        called = (All-middle _ front back (subst (All _) split h.called)).1;
      }

  -- A resume goes on with the batch, or leaves it alone.
  woken-IsInOrder :
      (ids : List ℕ) (s : System) (id : ℕ) (signal : ResumeSignal) (bytes : Bytes) (tail : List ℕ)
      (links : List (ℕ × ℕ))
      → s.gate.batch_chain_tail ≢ []
      → IsSingleSystem s
      → IsIntent id bytes
      → Way s id signal tail links
      → IsInOrderSystem ids s
      → IsInOrder ids tail links ((bytes, ok signal) ∷ s.callbacks) s.settled
  woken-IsInOrder ids s id signal bytes tail links waits single is (alone last same kept) h =
      record {
        former = h.former;
        latest = h.latest;
        split = h.split ∙ ap (λ x. h.former ++ h.latest ∷ x) (sym same);
        made = h.made;
        behind = subst (All _) (sym kept) h.behind;
        called = ((λ n named. cc (named, last)), h.called);
      }
  woken-IsInOrder ids s id signal bytes tail links waits single is (begins idle) h =
      absurd (waits idle)
  woken-IsInOrder ids s id signal bytes tail links waits single is
        (follows front back seq split popped left) h =
      let (others, quiet) =
        only_link s.links front back (id, seq) s.callbacks s.gate.batch_chain_tail split single in
      let (before, after) = All-middle _ front back (subst (All _) split h.behind) in
      record {
        former = h.former ++ h.latest ∷ [];
        latest = id;
        split =
            h.split
            ∙ ap (λ x. h.former ++ h.latest ∷ x) popped
            ∙ sym (append_assoc h.former (h.latest ∷ []) (id ∷ tail));
        made = All-append _ h.former (h.latest ∷ []) h.made (before, tt);
        behind = subst (All _) (sym (left ∙ others)) tt;
        called = ((λ n named. is), unnamed (λ r n. IsIntent id r.0) s.callbacks quiet);
      }

  module _ (b : Borsh) (k : Crypto) where
    pub Change-IsInOrder :
        (ids : List ℕ) {s t : System}
        → Change b k j ⊥ s t
        → s.gate.batch_chain_tail ≢ []
        → IsSingleSystem s
        → IsMatched j s
        → IsInOrderSystem ids s
        → IsInOrderSystem ids t
    Change-IsInOrder ids (added s c signed fc bytes v o pk fresh) waits single m h = h
    Change-IsInOrder ids (managed s g quiet) waits single m h = elim quiet.tail [
      | inl same ↦ subst (λ x. IsInOrder ids x s.links s.callbacks s.settled) (sym same) h
      | inr cleared ↦ absurd cleared.0
    ]
    Change-IsInOrder ids (fired s id p signal bytes rest g links approvals found taken is backed)
          waits single m h =
        let (a, reads, same, call) = fired_id j s id p bytes rest m found taken in
        woken-IsInOrder ids s id signal bytes g.batch_chain_tail links waits single (a, reads, same)
          backed.way h
    Change-IsInOrder ids (timed_out s y bytes rest reason t) waits single m h = record {
      former = h.former;
      latest = h.latest;
      split = h.split;
      made = h.made;
      behind = h.behind;
      called = ((λ n named. cc named), h.called);
    }
    Change-IsInOrder ids (answered s front back bytes signal a g fate links split reads ending)
          waits single m h =
        let (named, others) = All-middle _ front back (subst (All _) split h.called) in
        subst (λ x. IsInOrder ids x (links ++ s.links) (front ++ back) ((bytes, fate) ∷ s.settled))
          (sym (Ending-tail ending))
          (settled-IsInOrder ids s.gate.batch_chain_tail s.links s.callbacks front back
            (bytes, signal) s.settled (bytes, fate) links split h
            (Ending-IsMade bytes s.settled h.latest ending reads named))
    Change-IsInOrder ids (unanswered s front back bytes signal c e split own fails) waits single m
          h =
        settled-IsInOrder ids s.gate.batch_chain_tail s.links s.callbacks front back (bytes, signal)
          s.settled (bytes, failed) [] split h tt
    Change-IsInOrder ids (unlinked s front back l split) waits single m h = record {
      former = h.former;
      latest = h.latest;
      split = h.split;
      made = h.made;
      behind = (All-middle _ front back (subst (All _) split h.behind)).1;
      called = h.called;
    }
