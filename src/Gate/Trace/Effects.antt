-- ===== src/Gate/Trace/Effects.antt =====
-- What a call that goes through may change (contracts/gate/src/lib.rs), method by method.
use sequential_near.Prelude.{
  ℕ, ◌+◌, ◌-◌, ◌≤◌, ◌<◌, ◌≡◌, ◌∙◌, sym, refl, Bool, true, false, some, List, [], ◌∷◌, Result, ok,
  err, arith, text_key, nat_key, All, text_eq_iff,
}
use sequential_near.Prelude.Map.{Map, lookup, contains_key, insert, remove}
use sequential_near.Prelude.Word.{u64_mod, u128_mod}
use sequential_near.Host.{Bytes, AccountId, Call}
use sequential_near.Borsh.{Borsh}
use sequential_near.Nep366.{Crypto, DelegateAction, FunctionCallAction}
use sequential_near.Gate.Types.{ResumeSignal, CallbackArgs, Json}
use sequential_near.Gate.State.{Gate, Tier, Panic, Done, assert_owner, state_of}
use sequential_near.Gate.Admin
use sequential_near.Gate.Fees
use sequential_near.Gate.Submit
use sequential_near.Gate.Chain
use sequential_near.Gate.Callback
use sequential_near.Gate.Callback.{PromiseError}
use sequential_near.Gate.Callback.Outcomes.{on_intent_resumed-ok}
use sequential_near.Gate.Submit.Accepts.{submitted_gate, submit_intent_iff}
use sequential_near.Gate.Chain.Steps.{resume_intent_iff}
use sequential_near.Gate.Chain.Batch.{batch_gate, resume_batch_chained_iff, empty_batch_refused}
use sequential_near.Gate.Chain.Links.{continue_chain_iff}
use sequential_near.Gate.Fees.Ladder.{IsLadder, set_fee_tiers-ok}
use sequential_near.Gate.Nonce.{nonce_key}
use sequential_near.Gate.Trace.{
  Op, add_relayer, remove_relayer, set_approver, set_fee_tiers, withdraw_fees, reset_batch_tail,
  submit_intent, resume_intent, resume_batch_chained, continue_chain, on_intent_resumed, apply,
}

-- A call that goes through has one of these effects on the state.
pub data Effect (c : Call) (op : Op) (g g' : Gate) : Type 0 where
  managed :
      (relayers : Map AccountId (Unit {0})) (approver : AccountId)
      → c.predecessor ≡ g.owner_id
      → g' ≡ record g { relayers = relayers; approver_id = approver }
      → Effect c op g g'
  cleared :
      op ≡ reset_batch_tail
      → c.predecessor ≡ g.owner_id
      → g' ≡ record g { batch_chain_tail = [] }
      → Effect c op g g'
  priced :
      (tiers : List Tier)
      → c.predecessor ≡ g.owner_id
      → IsLadder tiers
      → g' ≡ record g { fee_tiers = tiers }
      → Effect c op g g'
  withdrawn :
      (amount : ℕ)
      → c.predecessor ≡ g.owner_id
      → amount ≤ g.fees_collected_total - g.fees_withdrawn_total
      → g' ≡ record g { fees_withdrawn_total = g.fees_withdrawn_total + amount }
      → Effect c op g g'
  submitted :
      (d : DelegateAction) (fc : FunctionCallAction)
      → contains_key (nonce_key d.sender_id d.nonce) g.used_nonces ≡ false
      → g.next_intent_id + 1 < u64_mod
      → g.intents_submitted + 1 < u64_mod
      → g' ≡ submitted_gate c g d fc
      → Effect c op g g'
  resumed :
      (id fee : ℕ)
      → g.fees_collected_total + fee < u128_mod
      → g' ≡ record g {
        pending = remove id g.pending;
        fees_collected_total = g.fees_collected_total + fee;
      }
      → Effect c op g g'
  started :
      (first_id : ℕ) (rest : List ℕ) (t : Tier)
      → g.batch_chain_tail ≡ []
      → All (λ id. contains_key id g.pending ≡ true) (first_id ∷ rest)
      → g.fees_collected_total + t.1 < u128_mod
      → g' ≡ batch_gate first_id rest t g
      → Effect c op g g'
  linked :
      (id : ℕ) (rest : List ℕ)
      → g.batch_chain_tail ≡ id ∷ rest
      → contains_key id g.pending ≡ true
      → g' ≡ record g { pending = remove id g.pending; batch_chain_tail = rest }
      → Effect c op g g'
  resolved :
      (id dispatched rejected : ℕ)
      → g' ≡ record g {
        pending = remove id g.pending;
        intents_dispatched = dispatched;
        intents_rejected = rejected;
      }
      → Effect c op g g'

found→contains_key :
    {V : Type 0} (id : ℕ) (m : Map ℕ V) {v : V} → lookup id m ≡ some v → contains_key id m ≡ true
unfolding contains_key
found→contains_key id m h = rw (h, contains_key)

pub state_of-eq-ok :
    {A : Type 0} (r : Result Panic (Done A)) {g : Gate}
    → state_of r ≡ ok g
    → (d : Done A) × (r ≡ ok d) × (d.gate ≡ g)
state_of-eq-ok (ok d) h = (d, refl, cc)
state_of-eq-ok (err e) h = cc

-- The owner's calls.
module _ (c : Call) (op : Op) (g g' : Gate) where
  add_relayer-Effect :
      (a : AccountId) → state_of (Admin.add_relayer c a g) ≡ ok g' → Effect c op g g'
  unfolding Admin.add_relayer assert_owner
  add_relayer-Effect a h =
      managed (insert a tt g.relayers) g.approver_id ((text_eq_iff _ _).0 (ground arith))
        (ground arith)

  remove_relayer-Effect :
      (a : AccountId) → state_of (Admin.remove_relayer c a g) ≡ ok g' → Effect c op g g'
  unfolding Admin.remove_relayer assert_owner
  remove_relayer-Effect a h =
      managed (remove a g.relayers) g.approver_id ((text_eq_iff _ _).0 (ground arith))
        (ground arith)

  set_approver-Effect :
      (a : AccountId) → state_of (Admin.set_approver c a g) ≡ ok g' → Effect c op g g'
  unfolding Admin.set_approver assert_owner
  set_approver-Effect a h = managed g.relayers a ((text_eq_iff _ _).0 (ground arith)) (ground arith)

  reset_batch_tail-Effect :
      op ≡ reset_batch_tail → state_of (Admin.reset_batch_tail c g) ≡ ok g' → Effect c op g g'
  unfolding Admin.reset_batch_tail assert_owner
  reset_batch_tail-Effect is h = cleared is ((text_eq_iff _ _).0 (ground arith)) (ground arith)

  owns :
      (tiers : List Tier)
      → state_of (Fees.set_fee_tiers c tiers g) ≡ ok g'
      → c.predecessor ≡ g.owner_id
  unfolding Fees.set_fee_tiers assert_owner
  owns tiers h = (text_eq_iff _ _).0 (ground arith)

  set_fee_tiers-Effect :
      (tiers : List Tier) → state_of (Fees.set_fee_tiers c tiers g) ≡ ok g' → Effect c op g g'
  set_fee_tiers-Effect tiers h =
      let (d, e, same) = state_of-eq-ok (Fees.set_fee_tiers c tiers g) h in
      let (ladder, changed) = set_fee_tiers-ok c tiers g d e in
      priced tiers (owns tiers h) ladder (sym same ∙ changed)

  withdraw_fees-Effect :
      (amount : ℕ) (to : AccountId)
      → state_of (Fees.withdraw_fees c amount to g) ≡ ok g'
      → Effect c op g g'
  unfolding Fees.withdraw_fees assert_owner
  withdraw_fees-Effect amount to h =
      withdrawn amount ((text_eq_iff _ _).0 (ground arith)) (ground arith) (ground arith)

-- The calls of the relayers and of the approver, and the gate's own.
module _ (j : Json) (c : Call) (op : Op) (g g' : Gate) where
  submit_intent-Effect :
      (b : Borsh) (k : Crypto) (bytes : Bytes)
      → state_of (Submit.submit_intent b k j c bytes g) ≡ ok g'
      → Effect c op g g'
  submit_intent-Effect b k bytes h =
      let (d, e, same) = state_of-eq-ok (Submit.submit_intent b k j c bytes g) h in
      let (s, fc, payload, a, done) = (submit_intent_iff b k j c bytes g d).0 e in
      submitted s.delegate_action fc a.fresh a.id_room a.count_room (cc (same, done))

  resume_intent-Effect :
      (id : ℕ) (approve : Bool)
      → state_of (Chain.resume_intent j c id approve g) ≡ ok g'
      → Effect c op g g'
  resume_intent-Effect id approve h =
      let (d, e, same) = state_of-eq-ok (Chain.resume_intent j c id approve g) h in
      let (t, p, payload, a, done) = (resume_intent_iff j c id approve g d).0 e in
      resumed id t.1 a.fits (cc (same, done))

  resume_batch_chained-Effect :
      (ids : List ℕ) → state_of (Chain.resume_batch_chained j c ids g) ≡ ok g' → Effect c op g g'
  resume_batch_chained-Effect [] h = absurd (empty_batch_refused j c g h)
  resume_batch_chained-Effect (id ∷ ids) h =
      let (d, e, same) = state_of-eq-ok (Chain.resume_batch_chained j c (id ∷ ids) g) h in
      let (t, p, payload, a, done) = (resume_batch_chained_iff j c id ids g d).0 e in
      started id ids t a.idle a.known a.fits (cc (same, done))

  continue_chain-Effect :
      (id seq : ℕ) → state_of (Chain.continue_chain j c id seq g) ≡ ok g' → Effect c op g g'
  continue_chain-Effect id seq h =
      let (d, e, same) = state_of-eq-ok (Chain.continue_chain j c id seq g) h in
      let (rest, p, payload, a, done) = (continue_chain_iff j c id seq g d).0 e in
      linked id rest a.front (found→contains_key id g.pending a.resumable.found) (cc (same, done))

  on_intent_resumed-Effect :
      (a : CallbackArgs) (signal : Result PromiseError ResumeSignal)
      → state_of (Callback.on_intent_resumed c a signal g) ≡ ok g'
      → Effect c op g g'
  on_intent_resumed-Effect a signal h =
      let (d, e, same) = state_of-eq-ok (Callback.on_intent_resumed c a signal g) h in
      let (x, y, changed) = on_intent_resumed-ok c a signal g d e in
      resolved a.intent_id x y (sym same ∙ changed)

-- Every call of the gate that goes through has one of the effects.
pub apply-Effect :
    (b : Borsh) (k : Crypto) (j : Json) (c : Call) (op : Op) (g g' : Gate)
    → apply b k j c op g ≡ ok g'
    → Effect c op g g'
unfolding apply
apply-Effect b k j c (add_relayer a) g g' h = add_relayer-Effect c _ g g' a h
apply-Effect b k j c (remove_relayer a) g g' h = remove_relayer-Effect c _ g g' a h
apply-Effect b k j c (set_approver a) g g' h = set_approver-Effect c _ g g' a h
apply-Effect b k j c (set_fee_tiers tiers) g g' h = set_fee_tiers-Effect c _ g g' tiers h
apply-Effect b k j c (withdraw_fees amount to) g g' h = withdraw_fees-Effect c _ g g' amount to h
apply-Effect b k j c reset_batch_tail g g' h = reset_batch_tail-Effect c _ g g' refl h
apply-Effect b k j c (submit_intent bytes) g g' h = submit_intent-Effect j c _ g g' b k bytes h
apply-Effect b k j c (resume_intent id approve) g g' h =
    resume_intent-Effect j c _ g g' id approve h
apply-Effect b k j c (resume_batch_chained ids) g g' h =
    resume_batch_chained-Effect j c _ g g' ids h
apply-Effect b k j c (continue_chain id seq) g g' h = continue_chain-Effect j c _ g g' id seq h
apply-Effect b k j c (on_intent_resumed a signal) g g' h =
    on_intent_resumed-Effect j c _ g g' a signal h
