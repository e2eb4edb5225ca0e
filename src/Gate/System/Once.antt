-- ===== src/Gate/System/Once.antt =====
-- Each intent of the gate (contracts/gate/src/lib.rs) is in one place and ends at most once, and the
-- gate's counters say how many did, in every system that a new gate can come to.
use sequential_near.Prelude.{
  ℕ, ◌+◌, ◌≡◌, ◌∙◌, sym, refl, some, Result, arith, All, All-middle, total, ltb, if◌then◌else◌,
}
use mathlib.Core.Path.{subst}
use sequential_near.Host.{Bytes, AccountId, YieldId}
use sequential_near.Borsh.{Borsh}
use sequential_near.Nep366.{Crypto}
use sequential_near.Gate.Types.{ResumeSignal, CallbackArgs, Json, JsonLaws}
use sequential_near.Gate.State.{new}
use sequential_near.Gate.Callback.{PromiseError}
use sequential_near.Gate.System.{System, Fate, start, Reach, starts, steps}
use sequential_near.Gate.System.Changes.{
  refuses, dispatches, Change, added, managed, fired, timed_out, answered, unanswered, unlinked,
}
use sequential_near.Gate.System.Origins.{Step-Change}
use sequential_near.Gate.System.Places.{
  amount, is_of, is_dispatched, is_rejected, take_yield-All, IsSigned, packed-IsSigned, Account,
  moved, entered, Change-Account,
}

module _ (b : Borsh) (k : Crypto) (j : Json) where
  -- Some intent that was signed has these bytes.
  abbrev pub IsIntent : Bytes → Type 0
  IsIntent bytes = (a : CallbackArgs) × IsSigned b k j bytes a

  -- All intents, in whatever place, were signed.
  pub record IsAllSigned (s : System) : Type 0 where
    pub held : All (λ (h : YieldId × Bytes). IsIntent h.1) s.held
    pub callbacks : All (λ (r : Bytes × Result PromiseError ResumeSignal). IsIntent r.0) s.callbacks
    pub settled : All (λ (r : Bytes × Fate). IsIntent r.0) s.settled

  -- The intents that were given an id are each in one place, and the counters are true.
  pub record IsPlaced (s : System) : Type 0 where
    pub all_signed : IsAllSigned s
    pub placed : (id : ℕ) → amount (is_of j id) s ≡ (if ltb id s.gate.next_intent_id then 1 else 0)
    pub counted : amount (λ bytes. 1) s ≡ s.gate.next_intent_id
    pub submitted : s.gate.intents_submitted ≡ s.gate.next_intent_id
    pub dispatched :
        s.gate.intents_dispatched ≡ total (λ (r : Bytes × Fate). is_dispatched r.1) s.settled
    pub rejected : s.gate.intents_rejected ≡ total (λ (r : Bytes × Fate). is_rejected r.1) s.settled

  start-IsPlaced : (owner approver : AccountId) → IsPlaced (start owner approver)
  unfolding new
  start-IsPlaced owner approver = record {
    all_signed = record { held = tt; callbacks = tt; settled = tt };
    placed = λ id. ground arith;
    counted = refl;
    submitted = refl;
    dispatched = refl;
    rejected = refl;
  }

  Change-IsAllSigned :
      JsonLaws j → {s t : System} → Change b k j (Unit {0}) s t → IsAllSigned s → IsAllSigned t
  Change-IsAllSigned laws (added s c signed fc bytes verified single packed fresh) v = record {
    held = ((_, packed-IsSigned b k j laws s signed fc bytes verified single packed), v.held);
    callbacks = v.callbacks;
    settled = v.settled;
  }
  Change-IsAllSigned laws (managed s g is) v = record {
    held = v.held;
    callbacks = v.callbacks;
    settled = v.settled;
  }
  Change-IsAllSigned laws (fired s id p signal bytes rest g links approvals found taken is backed)
        v =
      let (here, others) = take_yield-All _ p.yield_id s.held taken v.held in
      record { held = others; callbacks = (here, v.callbacks); settled = v.settled }
  Change-IsAllSigned laws (timed_out s y bytes rest reason taken) v =
      let (here, others) = take_yield-All _ y s.held taken v.held in
      record { held = others; callbacks = (here, v.callbacks); settled = v.settled }
  Change-IsAllSigned laws (answered s front back bytes signal a g fate links split reads e) v =
      let (here, others) = All-middle _ front back (subst (All _) split v.callbacks) in
      record { held = v.held; callbacks = others; settled = (here, v.settled) }
  Change-IsAllSigned laws (unanswered s front back bytes signal c h split own fails) v =
      let (here, others) = All-middle _ front back (subst (All _) split v.callbacks) in
      record { held = v.held; callbacks = others; settled = (here, v.settled) }
  Change-IsAllSigned laws (unlinked s front back l split) v = record {
    held = v.held;
    callbacks = v.callbacks;
    settled = v.settled;
  }

  -- The counters follow the intents that have ended.
  abbrev IsCounted : System → Type 0
  IsCounted s =
      (s.gate.intents_dispatched ≡ total (λ (r : Bytes × Fate). is_dispatched r.1) s.settled)
      × (s.gate.intents_rejected ≡ total (λ (r : Bytes × Fate). is_rejected r.1) s.settled)

  Change-IsCounted : {s t : System} → Change b k j (Unit {0}) s t → IsCounted s → IsCounted t
  Change-IsCounted (added s c signed fc bytes verified single packed fresh) v = v
  Change-IsCounted (managed s g is) v = (is.dispatched ∙ v.0, is.rejected ∙ v.1)
  Change-IsCounted (fired s id p signal bytes rest g links approvals found taken is backed) v =
      (is.dispatched ∙ v.0, is.rejected ∙ v.1)
  Change-IsCounted (timed_out s y bytes rest reason taken) v = v
  Change-IsCounted (answered s front back bytes signal a g fate links split reads (refuses _ f l e))
        v =
      rw (f, e) (omega (arith, v.0), omega (arith, v.1))
  Change-IsCounted
        (answered s front back bytes signal a g fate links split reads (dispatches _ _ _ f l e)) v =
      rw (f, e) (omega (arith, v.0), omega (arith, v.1))
  Change-IsCounted (unanswered s front back bytes signal c h split own fails) v =
      (omega (arith, v.0), omega (arith, v.1))
  Change-IsCounted (unlinked s front back l split) v = v

  place_entered :
      (id : ℕ) (bytes : Bytes) (a : CallbackArgs) (next before after : ℕ)
      → j.args_from_slice bytes ≡ some a
      → a.intent_id ≡ next
      → after ≡ next + 1
      → before ≡ (if ltb id next then 1 else 0)
      → is_of j id bytes + before ≡ (if ltb id after then 1 else 0)
  place_entered id bytes a next before after reads is grows h = rw (is_of, reads) (ground arith)

  Account-placed :
      {s t : System} (id : ℕ)
      → Account b k j (is_of j id) s t
      → amount (is_of j id) s ≡ (if ltb id s.gate.next_intent_id then 1 else 0)
      → amount (is_of j id) t ≡ (if ltb id t.gate.next_intent_id then 1 else 0)
  Account-placed id (moved same next submitted) h = same ∙ (rw next h)
  Account-placed {s} {t} id (entered bytes a is id_is more next submitted) h =
      more
      ∙ place_entered id bytes a s.gate.next_intent_id (amount (is_of j id) s) t.gate.next_intent_id
          is.reads id_is next h

  Account-counted :
      {s t : System}
      → Account b k j (λ bytes. 1) s t
      → amount (λ bytes. 1) s ≡ s.gate.next_intent_id
      → s.gate.intents_submitted ≡ s.gate.next_intent_id
      → (amount (λ bytes. 1) t ≡ t.gate.next_intent_id)
        × (t.gate.intents_submitted ≡ t.gate.next_intent_id)
  Account-counted (moved same next submitted) h l = (same ∙ h ∙ sym next, submitted ∙ l ∙ sym next)
  Account-counted (entered bytes a is id_is more next submitted) h l =
      (omega (arith, more, h, next), omega (arith, submitted, l, next))

  pub Change-IsPlaced :
      JsonLaws j → {s t : System} → Change b k j (Unit {0}) s t → IsPlaced s → IsPlaced t
  Change-IsPlaced laws ch v =
      let counts =
        Account-counted (Change-Account b k j laws (λ bytes. 1) ch) v.counted v.submitted in
      let ends = Change-IsCounted ch (v.dispatched, v.rejected) in
      record {
        all_signed = Change-IsAllSigned laws ch v.all_signed;
        placed = λ id. Account-placed id (Change-Account b k j laws (is_of j id) ch) (v.placed id);
        counted = counts.0;
        submitted = counts.1;
        dispatched = ends.0;
        rejected = ends.1;
      }

  -- Where JSON reads back what it wrote: in every system that a new gate can come to, each id that
  -- was given out stands in one place, under its yield, at its due callback, or among the intents
  -- that have ended, and no other id does; so no intent ends twice. All of them were signed, the
  -- submissions count them, and the counters of the dispatched and the rejected intents count those
  -- that have ended so.
  pub Reach-IsPlaced :
      (self owner approver : AccountId)
      → JsonLaws j
      → {s : System} → Reach b k j self owner approver s
      → IsPlaced s
  Reach-IsPlaced self owner approver laws starts = start-IsPlaced owner approver
  Reach-IsPlaced self owner approver laws (steps r st) =
      Change-IsPlaced laws (Step-Change b k j laws self st)
        (Reach-IsPlaced self owner approver laws r)
