-- ===== src/Gate/System/Origins.antt =====
-- Every step of the gate's system (contracts/gate/src/lib.rs) makes one of the changes.
use sequential_near.Prelude.{
  ℕ, ◌≡◌, ◌∙◌, sym, ap, refl, List, [], ◌∷◌, ◌++◌, ok, arith, inl, >>=-eq-ok, or_panic,
  or_panic-eq-ok, if◌then◌else◌,
}
use mathlib.Core.Path.{subst}
use sequential_near.Host.{Bytes, AccountId, Call}
use sequential_near.Borsh.{Borsh}
use sequential_near.Nep366.{Crypto}
use sequential_near.Gate.Types.{PendingIntent, ResumeSignal, Json, JsonLaws}
use sequential_near.Gate.State.{Gate, assert_owner, state_of}
use sequential_near.Gate.Admin
use sequential_near.Gate.Fees
use sequential_near.Gate.Callback
use sequential_near.Gate.Callback.{PromiseError}
use sequential_near.Gate.Callback.Outcomes.{on_intent_resumed-done}
use sequential_near.Gate.Submit.Accepts.{submit_intent_iff}
use sequential_near.Gate.Chain.Steps.{IsResumable, single_signal, chain_signal, resume_intent_iff}
use sequential_near.Gate.Chain.Batch.{resume_batch_chained_iff, empty_batch_refused}
use sequential_near.Gate.Chain.Links.{continue_chain_iff}
use sequential_near.Gate.Fees.Ladder.{set_fee_tiers-ok}
use sequential_near.Gate.Run.{bad_args}
use sequential_near.Gate.Trace.{
  Op, add_relayer, remove_relayer, set_approver, set_fee_tiers, withdraw_fees, reset_batch_tail,
  submit_intent, resume_intent, resume_batch_chained, continue_chain, on_intent_resumed, apply,
}
use sequential_near.Gate.Trace.Effects.{state_of-eq-ok}
use sequential_near.Gate.System.{
  System, new_yields, next_links, fate_of, fire, IsOwnerOp, IsServed, Move, times_out, calls_back,
  call_back_fails, continues, continue_fails, Step, submits, resumes, starts_batch, manages, runs,
}
use sequential_near.Gate.System.Backed.{resume-IsBacked, batch-IsBacked, link-IsBacked}
use sequential_near.Gate.System.Woken.{callback_done-Ending, fire_resumed, lifted-eq-ok}
use sequential_near.Gate.System.Changes.{
  IsQuiet, IsTaken, IsBacked, Change, added, managed, fired, timed_out, answered, unanswered,
  unlinked,
}

module _ (b : Borsh) (k : Crypto) (j : Json) (self : AccountId) where
  -- The owner clears the tail.
  abbrev pub IsReset : {s t : System} → Step b k j self s t → Type 0
  IsReset (submits s c bytes d served fresh h) = ⊥
  IsReset (resumes s c id approve d served h) = ⊥
  IsReset (starts_batch s c ids d served h) = ⊥
  IsReset (manages s c op g served is h) = op ≡ reset_batch_tail
  IsReset (runs m) = ⊥

module _ (b : Borsh) (k : Crypto) (j : Json) (laws : JsonLaws j) (self : AccountId)
    (R : Type 0) where
  resume-Change :
      (s : System) (c : Call) (id : ℕ) (signal : ResumeSignal) (p : PendingIntent) (payload : Bytes)
      (g : Gate) (links : List (ℕ × ℕ)) (approvals : List ℕ)
      → IsServed self c s
      → IsResumable j c id signal s.gate p payload
      → IsTaken id s.gate g
      → IsBacked s id signal g.batch_chain_tail approvals links
      → Change b k j R s (
          fire j
            ((p.yield_id, payload) ∷ [])
            (record s { gate = g; links = links; approvals = approvals }))
  resume-Change s c id signal p payload g links approvals served r is backed =
      let (bytes, rest, taken, same) =
        fire_resumed j laws self s c id signal p payload g links approvals served r in
      subst (Change b k j R s) (sym same)
        (fired s id p signal bytes rest g links approvals r.found taken is backed)

  -- The calls of the owner.
  owner_op-IsQuiet :
      (c : Call) (op : Op) (g g' : Gate)
      → IsOwnerOp op
      → (op ≡ reset_batch_tail → R)
      → apply b k j c op g ≡ ok g'
      → IsQuiet R g g'
  unfolding apply Admin.add_relayer Admin.remove_relayer Admin.set_approver Admin.reset_batch_tail
      Fees.withdraw_fees assert_owner
  owner_op-IsQuiet c (add_relayer a) g g' is may h = ground arith
  owner_op-IsQuiet c (remove_relayer a) g g' is may h = ground arith
  owner_op-IsQuiet c (set_approver a) g g' is may h = ground arith
  owner_op-IsQuiet c (set_fee_tiers tiers) g g' is may h =
      let (d, e, same) = state_of-eq-ok (Fees.set_fee_tiers c tiers g) h in
      let (ladder, changed) = set_fee_tiers-ok c tiers g d e in
      subst (IsQuiet R g) (sym changed ∙ same) (record {
        pending = refl;
        next_id = refl;
        submitted = refl;
        dispatched = refl;
        rejected = refl;
        tail = inl refl;
      })
  owner_op-IsQuiet c (withdraw_fees amount to) g g' is may h = ground arith
  owner_op-IsQuiet c reset_batch_tail g g' is may h = let cleared = may refl in ground arith
  owner_op-IsQuiet c (submit_intent bytes) g g' is may h = absurd is
  owner_op-IsQuiet c (resume_intent id approve) g g' is may h = absurd is
  owner_op-IsQuiet c (resume_batch_chained ids) g g' is may h = absurd is
  owner_op-IsQuiet c (continue_chain id seq) g g' is may h = absurd is
  owner_op-IsQuiet c (on_intent_resumed a signal) g g' is may h = absurd is

  Move-Change : {s t : System} → Move j self s t → Change b k j R s t
  Move-Change (times_out s y bytes rest reason taken) = timed_out s y bytes rest reason taken
  Move-Change (calls_back s front back bytes signal c d split own h) =
      let (a, reads, h1) = >>=-eq-ok (or_panic (j.args_from_slice bytes) bad_args) _ h in
      let went = lifted-eq-ok (Callback.on_intent_resumed c a signal s.gate) h1 in
      subst
        (λ x. Change b k j R s (record s {
          gate = x.gate;
          callbacks = front ++ back;
          links = next_links x.result ++ s.links;
          settled = (bytes, fate_of x.result) ∷ s.settled;
        }))
        (sym (on_intent_resumed-done c a signal s.gate d went))
        (answered s front back bytes signal a _ _ _ split (or_panic-eq-ok _ _ reads)
          (callback_done-Ending c a signal s.gate))
  Move-Change (call_back_fails s front back bytes signal c e split own h) =
      unanswered s front back bytes signal c e split (own.own ∙ sym own.served.account) h
  Move-Change (continues s front back id seq c d split own h) =
      let (rest, p, payload, a, same) = (continue_chain_iff j c id seq s.gate d).0 h in
      subst
        (λ x.
          Change b k j R s (fire j x.resumed (record s { gate = x.gate; links = front ++ back })))
        (sym same)
        (resume-Change s c id (chain_signal seq rest) p payload _ (front ++ back) s.approvals
          own.served a.resumable
          (record {
            pending = refl;
            next_id = refl;
            submitted = refl;
            dispatched = refl;
            rejected = refl;
          })
          (link-IsBacked s front back id seq rest split a.front))
  Move-Change (continue_fails s front back id seq c e split own h) =
      unlinked s front back (id, seq) split

  pub Step-Change_of :
      {s t : System} (st : Step b k j self s t) → (IsReset b k j self st → R) → Change b k j R s t
  Step-Change_of (submits s c bytes d served fresh h) may =
      let (signed, fc, payload, a, same) = (submit_intent_iff b k j c bytes s.gate d).0 h in
      subst
        (λ x. Change b k j R s (record s { gate = x.gate; held = new_yields x.result ++ s.held }))
        (sym same) (added s c signed fc payload a.verified a.single a.packed fresh)
  Step-Change_of (resumes s c id approve d served h) may =
      let (t, p, payload, a, same) = (resume_intent_iff j c id approve s.gate d).0 h in
      subst
        (λ x. Change b k j R s (
          fire j x.resumed (record s {
            gate = x.gate;
            approvals = (if approve then id ∷ [] else []) ++ s.approvals;
          })))
        (sym same)
        (resume-Change s c id (single_signal approve) p payload _ s.links _ served a.resumable
          (record {
            pending = refl;
            next_id = refl;
            submitted = refl;
            dispatched = refl;
            rejected = refl;
          })
          (resume-IsBacked s id approve))
  Step-Change_of (starts_batch s c [] d served h) may =
      absurd (empty_batch_refused j c s.gate (ap state_of h))
  Step-Change_of (starts_batch s c (id ∷ ids) d served h) may =
      let (t, p, payload, a, same) = (resume_batch_chained_iff j c id ids s.gate d).0 h in
      subst
        (λ x.
          Change b k j R s
            (fire j x.resumed (record s { gate = x.gate; approvals = (id ∷ ids) ++ s.approvals })))
        (sym same)
        (resume-Change s c id (chain_signal 0 ids) p payload _ s.links _ served a.resumable
          (record {
            pending = refl;
            next_id = refl;
            submitted = refl;
            dispatched = refl;
            rejected = refl;
          })
          (batch-IsBacked s id ids a.idle))
  Step-Change_of (manages s c op g served is h) may =
      managed s g (owner_op-IsQuiet c op s.gate g is may h)
  Step-Change_of (runs m) may = Move-Change m

module _ (b : Borsh) (k : Crypto) (j : Json) (laws : JsonLaws j) (self : AccountId) where
  pub Step-Change : {s t : System} → Step b k j self s t → Change b k j (Unit {0}) s t
  Step-Change st = Step-Change_of b k j laws self (Unit {0}) st (λ reset. tt)
