-- ===== src/Gate/System/Order.antt =====
-- The order of a batch of the gate (contracts/gate/src/lib.rs) in the runtime, with other calls in
-- between: an id leaves the tail only when the calls of the intents in front of it have been made.
use sequential_near.Prelude.{ℕ, ◌≡◌, ◌≢◌, sym, ap, refl, List, [], ◌∷◌, ◌++◌, ok, All}
use mathlib.Core.Path.{subst}
use sequential_near.Host.{AccountId, Call}
use sequential_near.Borsh.{Borsh}
use sequential_near.Nep366.{Crypto}
use sequential_near.Gate.Types.{Json, JsonLaws}
use sequential_near.Gate.State.{Done, state_of}
use sequential_near.Gate.Chain.{resume_batch_chained}
use sequential_near.Gate.Chain.Steps.{chain_signal}
use sequential_near.Gate.Chain.Batch.{batch_gate, resume_batch_chained_iff, empty_batch_refused}
use sequential_near.Gate.System.{System, fire, IsServed, Step, starts_batch, Reach, starts, steps}
use sequential_near.Gate.System.Changes.{IsSingle}
use sequential_near.Gate.System.Single.{unnamed, no_successor, no_links}
use sequential_near.Gate.System.Woken.{fire_resumed}
use sequential_near.Gate.System.Origins.{IsReset, Step-Change_of}
use sequential_near.Gate.System.Progress.{IsIntent, IsMade, IsInOrderSystem, Change-IsInOrder}
use sequential_near.Gate.System.Yields.{IsMatched, fired_id, Reach-IsMatched}
use sequential_near.Gate.System.InFlight.{
  IsSingleSystem, ReachKept, starts as kept_starts, steps as kept_steps, ReachKept-IsSingle,
}

module _ (b : Borsh) (k : Crypto) (j : Json) (self : AccountId) where
  -- The systems from the start of the batch of `ids` until its last id has left the tail, without a call
  -- of `reset_batch_tail`.
  pub data InBatch (owner approver : AccountId) (ids : List ℕ) : System → Type 0 where
    opens :
        (s : System) (c : Call) (d : Done (Unit {0}))
        → ReachKept b k j self owner approver s
        → IsServed self c s
        → resume_batch_chained j c ids s.gate ≡ ok d
        → InBatch owner approver ids
            (fire j d.resumed (record s { gate = d.gate; approvals = ids ++ s.approvals }))
    goes_on :
        {s t : System}
        → InBatch owner approver ids s
        → s.gate.batch_chain_tail ≢ []
        → (st : Step b k j self s t) → (IsReset b k j self st → ⊥)
        → InBatch owner approver ids t

module _ (b : Borsh) (k : Crypto) (j : Json) (laws : JsonLaws j) (self : AccountId) where
  -- A batch that is started after a run without a call of `reset_batch_tail` has come nowhere yet.
  started-IsInOrder :
      (s : System) (c : Call) (ids : List ℕ) (d : Done (Unit {0}))
      → IsServed self c s
      → resume_batch_chained j c ids s.gate ≡ ok d
      → IsSingleSystem s
      → IsMatched j s
      → IsInOrderSystem j ids
          (fire j d.resumed (record s { gate = d.gate; approvals = ids ++ s.approvals }))
  started-IsInOrder s c [] d served h single m =
      absurd (empty_batch_refused j c s.gate (ap state_of h))
  started-IsInOrder s c (id ∷ ids) d served h single m =
      let (t, p, payload, a, same) = (resume_batch_chained_iff j c id ids s.gate d).0 h in
      let (bytes, rest, taken, woken) =
        fire_resumed j laws self s c id (chain_signal 0 ids) p payload (batch_gate id ids t s.gate)
          s.links ((id ∷ ids) ++ s.approvals) served a.resumable in
      let (args, reads, is, call) = fired_id j s id p bytes rest m a.resumable.found taken in
      let idle = subst (IsSingle s.links s.callbacks) a.idle single in
      subst
        (λ x.
          IsInOrderSystem j (id ∷ ids)
            (fire j x.resumed (record s { gate = x.gate; approvals = (id ∷ ids) ++ s.approvals })))
        (sym same)
        (subst (IsInOrderSystem j (id ∷ ids)) (sym woken) (record {
          former = [];
          latest = id;
          split = refl;
          made = tt;
          behind = subst (All _) (sym (no_links s.links idle.due)) tt;
          called = (
            (λ n named. (args, reads, is)),
            unnamed (λ r n. IsIntent j id r.0) s.callbacks (no_successor s.callbacks idle.named),
          );
        }))

  InBatch-ReachKept :
      {owner approver : AccountId} {ids : List ℕ} {s : System}
      → InBatch b k j self owner approver ids s
      → ReachKept b k j self owner approver s
  InBatch-ReachKept {ids = ids} (opens s c d r served h) =
      kept_steps r (starts_batch s c ids d served h) (λ never. never)
  InBatch-ReachKept (goes_on r waits st kept) = kept_steps (InBatch-ReachKept r) st kept

  ReachKept-Reach :
      {owner approver : AccountId} {s : System}
      → ReachKept b k j self owner approver s
      → Reach b k j self owner approver s
  ReachKept-Reach kept_starts = starts
  ReachKept-Reach (kept_steps r st kept) = steps (ReachKept-Reach r) st

  ReachKept-IsMatched :
      {owner approver : AccountId} {s : System}
      → ReachKept b k j self owner approver s
      → IsMatched j s
  ReachKept-IsMatched {owner = owner} {approver = approver} r =
      Reach-IsMatched b k j self owner approver laws (ReachKept-Reach r)

  InBatch-IsInOrder :
      {owner approver : AccountId} {ids : List ℕ} {s : System}
      → InBatch b k j self owner approver ids s
      → IsInOrderSystem j ids s
  InBatch-IsInOrder {ids = ids} (opens s c d r served h) =
      started-IsInOrder s c ids d served h (ReachKept-IsSingle b k j laws self r)
        (ReachKept-IsMatched r)
  InBatch-IsInOrder {ids = ids} (goes_on r waits st kept) =
      let before = InBatch-ReachKept r in
      Change-IsInOrder j b k ids (Step-Change_of b k j laws self ⊥ st kept) waits
        (ReachKept-IsSingle b k j laws self before) (ReachKept-IsMatched before)
        (InBatch-IsInOrder r)

  -- Where JSON reads back what it wrote: from the start of a batch until its last id has left the tail,
  -- whatever calls and timeouts come in between, as long as the owner never calls `reset_batch_tail`: the tail is what is left of the batch
  -- behind one of its ids, and the calls of all the intents before that one have been made.
  pub batch_in_order :
      {owner approver : AccountId} (ids : List ℕ) (s : System)
      → InBatch b k j self owner approver ids s
      → (former : List ℕ) × (latest : ℕ) × (ids ≡ former ++ latest ∷ s.gate.batch_chain_tail)
        × All (IsMade j s.settled) former
  batch_in_order ids s r = let h = InBatch-IsInOrder r in (h.former, h.latest, h.split, h.made)
