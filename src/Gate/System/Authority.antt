-- ===== src/Gate/System/Authority.antt =====
-- Who decides what the gate dispatches (contracts/gate/src/lib.rs): the user who signed the call, and
-- the approver who named its id.
use sequential_near.Prelude.{
  ℕ, ◌≡◌, ◌⊎◌, ◌∙◌, sym, ap, refl, Bool, true, false, some, List, [], ◌∷◌, ◌++◌, All-lookup, Holds,
  inl, inr, if◌then◌else◌,
}
use mathlib.Core.Path.{subst}
use sequential_near.Host.{Bytes, AccountId}
use sequential_near.Borsh.{Borsh}
use sequential_near.Nep366.{Crypto, FunctionCallAction, SignedDelegateAction, function_call, verify}
use sequential_near.Gate.Types.{CallbackArgs, Json, JsonLaws}
use sequential_near.Gate.State
use sequential_near.Gate.State.{Promise, Done, state_of}
use sequential_near.Gate.Callback.Outcomes.{dispatch_of}
use sequential_near.Gate.Chain.Steps.{resume_intent_iff}
use sequential_near.Gate.Chain.Batch.{resume_batch_chained_iff, empty_batch_refused}
use sequential_near.Gate.System.{
  System, dispatched, Move, times_out, calls_back, call_back_fails, continues, continue_fails, Step,
  submits, resumes, starts_batch, manages, runs, Reach, starts, steps,
}
use sequential_near.Gate.System.Woken.{fire-approvals}
use sequential_near.Gate.System.Approvals.{Reach-IsApproved}
use sequential_near.Gate.System.Once.{Reach-IsPlaced}

module _ (b : Borsh) (k : Crypto) (j : Json) (self : AccountId) where
  -- The step is a call that names the id for approval, by the account that is the approver then.
  abbrev pub Approves : {s t : System} → Step b k j self s t → ℕ → Type 0
  Approves (submits s c bytes d served fresh h) id = ⊥
  Approves (resumes s c i approve d served h) id =
      (c.predecessor ≡ s.gate.approver_id) × (approve ≡ true) × (id ≡ i)
  Approves (starts_batch s c ids d served h) id =
      (c.predecessor ≡ s.gate.approver_id) × Holds id ids
  Approves (manages s c op g served is h) id = ⊥
  Approves (runs m) id = ⊥

  -- One of the steps of the run was such a call.
  abbrev pub WasApproved :
      {owner approver : AccountId} {s : System} → Reach b k j self owner approver s → ℕ → Type 0
  WasApproved starts id = ⊥
  WasApproved (steps r st) id = Approves st id ⊎ WasApproved r id

  Move-approvals : {s t : System} → Move j self s t → t.approvals ≡ s.approvals
  Move-approvals (times_out s y bytes rest reason taken) = refl
  Move-approvals (calls_back s front back bytes signal c d split own h) = refl
  Move-approvals (call_back_fails s front back bytes signal c e split own h) = refl
  Move-approvals (continues s front back id seq c d split own h) = fire-approvals j d.resumed _
  Move-approvals (continue_fails s front back id seq c e split own h) = refl

  Holds-front : (id : ℕ) (xs ys : List ℕ) → Holds id (xs ++ ys) → Holds id xs ⊎ Holds id ys
  Holds-front id [] ys h = inr h
  Holds-front id (x ∷ xs) ys (inl e) = inl (inl e)
  Holds-front id (x ∷ xs) ys (inr h) = elim (Holds-front id xs ys h) [
    | inl here ↦ inl (inr here)
    | inr later ↦ inr later
  ]

  named_one :
      (id i : ℕ) (approve : Bool)
      → Holds id (if approve then i ∷ [] else [])
      → (approve ≡ true) × (id ≡ i)
  named_one id i true (inl e) = (refl, e)
  named_one id i true (inr never) = absurd never
  named_one id i false never = absurd never

  -- Only the approver's calls name an id for approval.
  Step-approvals :
      {s t : System} (st : Step b k j self s t) (id : ℕ)
      → Holds id t.approvals
      → Approves st id ⊎ Holds id s.approvals
  Step-approvals (submits s c bytes d served fresh h) id held = inr held
  Step-approvals (resumes s c i approve d served h) id held =
      let (t, p, payload, a, same) = (resume_intent_iff j c i approve s.gate d).0 h in
      elim (Holds-front id (if approve then i ∷ [] else []) s.approvals
        (subst (Holds id) (fire-approvals j d.resumed _) held)) [
          | inl here ↦
              let (approved, is) = named_one id i approve here in inl (a.approver, approved, is)
          | inr before ↦ inr before
        ]
  Step-approvals (starts_batch s c [] d served h) id held =
      absurd (empty_batch_refused j c s.gate (ap state_of h))
  Step-approvals (starts_batch s c (i ∷ ids) d served h) id held =
      let (t, p, payload, a, same) = (resume_batch_chained_iff j c i ids s.gate d).0 h in
      elim (Holds-front id (i ∷ ids) s.approvals
        (subst (Holds id) (fire-approvals j d.resumed _) held)) [
          | inl here ↦ inl (a.approver, here)
          | inr before ↦ inr before
        ]
  Step-approvals (manages s c op g served is h) id held = inr held
  Step-approvals (runs m) id held = inr (subst (Holds id) (Move-approvals m) held)

  Reach-approvals :
      {owner approver : AccountId} {s : System} (r : Reach b k j self owner approver s) (id : ℕ)
      → Holds id s.approvals
      → WasApproved r id
  Reach-approvals starts id held = held
  Reach-approvals (steps r st) id held = elim (Step-approvals st id held) [
    | inl now ↦ inl now
    | inr before ↦ inr (Reach-approvals r id before)
  ]

  -- The call is that of a delegate whose signature verified, and which holds this one call; and in the
  -- run the approver has named its id for approval.
  pub record IsAuthorized {owner approver : AccountId} {s : System} (bytes : Bytes) (call : Promise)
      (r : Reach b k j self owner approver s) : Type 0 where
    pub a : CallbackArgs
    pub reads : j.args_from_slice bytes ≡ some a
    pub signed : SignedDelegateAction
    pub fc : FunctionCallAction
    pub verified : verify b k signed ≡ true
    pub single : signed.delegate_action.actions ≡ function_call fc ∷ []
    pub as_signed :
        call
        ≡ State.function_call signed.delegate_action.receiver_id fc.method_name fc.args fc.deposit
            fc.gas
    pub approved : WasApproved r a.intent_id

  -- Where JSON reads back what it wrote: in every system that a new gate can come to, whatever the
  -- callers did and in whatever order the runtime made its calls, each call that the gate has
  -- dispatched for an intent is exactly the one function call of a delegate whose signature verified,
  -- with its receiver, arguments, deposit and gas; and a step of the run was a call of `resume_intent`
  -- that approves that intent's id, or of `resume_batch_chained` that names it, whose caller was the
  -- gate's approver at that time.
  pub dispatched-IsAuthorized :
      (owner approver : AccountId) (bytes : Bytes) (call : Promise)
      → JsonLaws j
      → (s : System) (r : Reach b k j self owner approver s)
      → Holds (bytes, dispatched call) s.settled
      → IsAuthorized bytes call r
  dispatched-IsAuthorized owner approver bytes call laws s r h =
      let v = Reach-IsApproved b k j self owner approver laws r in
      let (a, reads, made, named) = All-lookup _ s.settled v.settled h call refl in
      let placed = Reach-IsPlaced b k j self owner approver laws r in
      let (a', signed) = All-lookup _ s.settled placed.all_signed.settled h in
      let same : a' ≡ a = cc (signed.reads, reads) in
      record {
        a = a;
        reads = reads;
        signed = signed.signed;
        fc = signed.fc;
        verified = signed.verified;
        single = signed.single;
        as_signed = made ∙ (ap dispatch_of (sym same) ∙ signed.call);
        approved = Reach-approvals r a.intent_id named;
      }
