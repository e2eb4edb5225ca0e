-- ===== src/Gate/Trace/Roles.antt =====
-- Who may call what of the gate (contracts/gate/src/lib.rs), and what the owner alone can change.
use sequential_near.Prelude.{
  ◌≡◌, ◌≢◌, ◌∙◌, sym, refl, true, List, [], ◌∷◌, Result, ok, nat_key, text_key, text_eq_iff, All,
  ◌>>◌, require-eq-ok,
}
use sequential_near.Prelude.Map.{contains_key}
use mathlib.Core.Path.{subst}
use sequential_near.Host.{Call}
use sequential_near.Borsh.{Borsh}
use sequential_near.Nep366.{Crypto}
use sequential_near.Gate.Types.{Json}
use sequential_near.Gate.State.{Gate, Panic, assert_owner, assert_private}
use sequential_near.Gate.Admin
use sequential_near.Gate.Fees
use sequential_near.Gate.Submit
use sequential_near.Gate.Chain
use sequential_near.Gate.Callback
use sequential_near.Gate.Submit.Accepts.{submit_intent_iff}
use sequential_near.Gate.Chain.Steps.{resume_intent_iff}
use sequential_near.Gate.Chain.Batch.{resume_batch_chained_iff, empty_batch_refused}
use sequential_near.Gate.Trace.{
  Op, add_relayer, remove_relayer, set_approver, set_fee_tiers, withdraw_fees, reset_batch_tail,
  submit_intent, resume_intent, resume_batch_chained, continue_chain, on_intent_resumed, apply,
  attempts,
}
use sequential_near.Gate.Trace.Effects.{
  Effect, managed, cleared, priced, withdrawn, submitted, resumed, started, linked, resolved,
  state_of-eq-ok,
}
use sequential_near.Gate.Trace.Keep.{attempts_keep_where}

-- The role that a method asks of its caller.
abbrev pub HasRole : Call → Op → Gate → Type 0
HasRole c (submit_intent bytes) g = contains_key c.predecessor g.relayers ≡ true
HasRole c (resume_intent id approve) g = c.predecessor ≡ g.approver_id
HasRole c (resume_batch_chained ids) g = c.predecessor ≡ g.approver_id
HasRole c (continue_chain id seq) g = c.predecessor ≡ c.current_account
HasRole c (on_intent_resumed a signal) g = c.predecessor ≡ c.current_account
HasRole c (add_relayer a) g = c.predecessor ≡ g.owner_id
HasRole c (remove_relayer a) g = c.predecessor ≡ g.owner_id
HasRole c (set_approver a) g = c.predecessor ≡ g.owner_id
HasRole c (set_fee_tiers tiers) g = c.predecessor ≡ g.owner_id
HasRole c (withdraw_fees amount to) g = c.predecessor ≡ g.owner_id
HasRole c reset_batch_tail g = c.predecessor ≡ g.owner_id

owner_only :
    {A : Type 0} (c : Call) (g : Gate) (r : Result Panic A) {a : A}
    → (assert_owner c g >> r) ≡ ok a
    → c.predecessor ≡ g.owner_id
unfolding assert_owner
owner_only c g r h = (text_eq_iff _ _).0 (require-eq-ok _ _ r h).0

private_only :
    {A : Type 0} (c : Call) (r : Result Panic A) {a : A}
    → (assert_private c >> r) ≡ ok a
    → c.predecessor ≡ c.current_account
unfolding assert_private
private_only c r h = (text_eq_iff _ _).0 (require-eq-ok _ _ r h).0

-- A call goes through only if its caller has the role that the method asks for: a relayer for
-- `submit_intent`, the approver for the two resumes, the gate itself for `continue_chain` and
-- `on_intent_resumed`, and the owner for the rest.
pub apply-HasRole :
    (b : Borsh) (k : Crypto) (j : Json) (c : Call) (op : Op) (g g' : Gate)
    → apply b k j c op g ≡ ok g'
    → HasRole c op g
unfolding apply Admin.add_relayer Admin.remove_relayer Admin.set_approver Admin.reset_batch_tail
    Fees.set_fee_tiers Fees.withdraw_fees Chain.continue_chain Callback.on_intent_resumed
apply-HasRole b k j c (submit_intent bytes) g g' h =
    let (d, e, same) = state_of-eq-ok (Submit.submit_intent b k j c bytes g) h in
    let (s, fc, payload, a, done) = (submit_intent_iff b k j c bytes g d).0 e in a.relayer
apply-HasRole b k j c (resume_intent id approve) g g' h =
    let (d, e, same) = state_of-eq-ok (Chain.resume_intent j c id approve g) h in
    let (t, p, payload, a, done) = (resume_intent_iff j c id approve g d).0 e in a.approver
apply-HasRole b k j c (resume_batch_chained []) g g' h = absurd (empty_batch_refused j c g h)
apply-HasRole b k j c (resume_batch_chained (id ∷ ids)) g g' h =
    let (d, e, same) = state_of-eq-ok (Chain.resume_batch_chained j c (id ∷ ids) g) h in
    let (t, p, payload, a, done) = (resume_batch_chained_iff j c id ids g d).0 e in a.approver
apply-HasRole b k j c (continue_chain id seq) g g' h =
    private_only c _ (state_of-eq-ok (Chain.continue_chain j c id seq g) h).1
apply-HasRole b k j c (on_intent_resumed a signal) g g' h =
    private_only c _ (state_of-eq-ok (Callback.on_intent_resumed c a signal g) h).1
apply-HasRole b k j c (add_relayer a) g g' h =
    owner_only c g _ (state_of-eq-ok (Admin.add_relayer c a g) h).1
apply-HasRole b k j c (remove_relayer a) g g' h =
    owner_only c g _ (state_of-eq-ok (Admin.remove_relayer c a g) h).1
apply-HasRole b k j c (set_approver a) g g' h =
    owner_only c g _ (state_of-eq-ok (Admin.set_approver c a g) h).1
apply-HasRole b k j c (set_fee_tiers tiers) g g' h =
    owner_only c g _ (state_of-eq-ok (Fees.set_fee_tiers c tiers g) h).1
apply-HasRole b k j c (withdraw_fees amount to) g g' h =
    owner_only c g _ (state_of-eq-ok (Fees.withdraw_fees c amount to g) h).1
apply-HasRole b k j c reset_batch_tail g g' h =
    owner_only c g _ (state_of-eq-ok (Admin.reset_batch_tail c g) h).1

-- Two states that agree on everything that the owner manages.
pub record SameTerms (g g' : Gate) : Type 0 where
  pub owner : g'.owner_id ≡ g.owner_id
  pub approver : g'.approver_id ≡ g.approver_id
  pub relayers : g'.relayers ≡ g.relayers
  pub tiers : g'.fee_tiers ≡ g.fee_tiers
  pub withdrawals : g'.fees_withdrawn_total ≡ g.fees_withdrawn_total

SameTerms-kept :
    {g₀ g g' : Gate}
    → SameTerms g₀ g
    → g'.owner_id ≡ g.owner_id
    → g'.approver_id ≡ g.approver_id
    → g'.relayers ≡ g.relayers
    → g'.fee_tiers ≡ g.fee_tiers
    → g'.fees_withdrawn_total ≡ g.fees_withdrawn_total
    → SameTerms g₀ g'
SameTerms-kept s owner approver relayers tiers withdrawals = record {
  owner = owner ∙ s.owner;
  approver = approver ∙ s.approver;
  relayers = relayers ∙ s.relayers;
  tiers = tiers ∙ s.tiers;
  withdrawals = withdrawals ∙ s.withdrawals;
}

Effect-SameTerms :
    (g₀ : Gate) {c : Call} {op : Op} {g g' : Gate}
    → c.predecessor ≢ g₀.owner_id
    → Effect c op g g'
    → SameTerms g₀ g
    → SameTerms g₀ g'
Effect-SameTerms g₀ other (managed _ _ own _) s = absurd (other (own ∙ s.owner))
Effect-SameTerms g₀ other (cleared _ own _) s = absurd (other (own ∙ s.owner))
Effect-SameTerms g₀ other (priced _ own _ _) s = absurd (other (own ∙ s.owner))
Effect-SameTerms g₀ other (withdrawn _ own _ _) s = absurd (other (own ∙ s.owner))
Effect-SameTerms g₀ other (submitted _ _ _ _ _ e) s =
    subst (SameTerms g₀) (sym e) (SameTerms-kept s refl refl refl refl refl)
Effect-SameTerms g₀ other (resumed _ _ _ e) s =
    subst (SameTerms g₀) (sym e) (SameTerms-kept s refl refl refl refl refl)
Effect-SameTerms g₀ other (started _ _ _ _ _ _ e) s =
    subst (SameTerms g₀) (sym e) (SameTerms-kept s refl refl refl refl refl)
Effect-SameTerms g₀ other (linked _ _ _ _ e) s =
    subst (SameTerms g₀) (sym e) (SameTerms-kept s refl refl refl refl refl)
Effect-SameTerms g₀ other (resolved _ _ _ e) s =
    subst (SameTerms g₀) (sym e) (SameTerms-kept s refl refl refl refl refl)

-- Calls of which none is the owner's, however many and in whatever order, leave the owner, the
-- approver, the relayers, the fee tiers and the total of the fees withdrawn as they were.
pub attempts-SameTerms :
    (b : Borsh) (k : Crypto) (j : Json) (g : Gate) (ops : List (Call × Op))
    → All (λ op. op.0.predecessor ≢ g.owner_id) ops
    → SameTerms g (attempts b k j ops g)
attempts-SameTerms b k j g ops others =
    attempts_keep_where b k j (SameTerms g) (λ op. op.0.predecessor ≢ g.owner_id)
      (λ c op x x' q e p. Effect-SameTerms g q e p) ops g others
      (record { owner = refl; approver = refl; relayers = refl; tiers = refl; withdrawals = refl })
