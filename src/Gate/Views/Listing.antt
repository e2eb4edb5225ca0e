-- ===== src/Gate/Views/Listing.antt =====
-- What `list_pending` and `get_pending` (contracts/gate/src/lib.rs) show, against each other and through
-- the calls of the gate.
use sequential_near.Prelude.{
  ℕ, ◌≡◌, ◌≢◌, ◌↔◌, ◌∙◌, sym, ap, refl, some, List, [], ◌∷◌, ok, arith, All, Holds, IsDistinct,
  nat_key, nat_eq, nat_eq_iff, text_key, Bool-cases, Option-cases, inl, inr, ==_refl,
}
use sequential_near.Prelude.Map.{Map, keys, lookup, insert, remove, lookup-insert}
use mathlib.Core.Path.{subst}
use sequential_near.Host.{Bytes, AccountId, Call}
use sequential_near.Borsh.{Borsh}
use sequential_near.Nep366.{
  Crypto, SignedDelegateAction, FunctionCallAction, function_call, parse_signed,
}
use sequential_near.Gate.Types.{PendingIntent, PendingIntentView, Json}
use sequential_near.Gate.State.{Gate, Promise, Done, new}
use sequential_near.Gate.Submit.{submit_intent}
use sequential_near.Gate.Submit.Accepts.{intent_of, submitted_gate, submit_intent_iff}
use sequential_near.Gate.Views.{get_pending, list_pending}
use sequential_near.Gate.Trace.{Op, attempts}
use sequential_near.Gate.Trace.Effects.{
  Effect, managed, cleared, priced, withdrawn, submitted, resumed, started, linked, resolved,
}
use sequential_near.Gate.Trace.Keep.{attempts_keep}

module _ {V : Type 0} where
  keys-lookup : (id : ℕ) (m : Map ℕ V) → Holds id (keys m) ↔ ((v : V) × (lookup id m ≡ some v))
  unfolding keys lookup
  keys-lookup id [] = ((λ h. absurd h), λ (v, h). cc h)
  keys-lookup id ((other, v) ∷ m) = elim (Bool-cases (nat_eq other id)) [
    | inl same ↦ ((λ h. (v, rw same)), λ h. inl (sym ((nat_eq_iff other id).0 same)))
    | inr differs ↦ rw differs (
      (λ h. elim h [
        | inl e ↦ absurd (cc (differs, (nat_eq_iff other id).1 (sym e)))
        | inr h ↦ (keys-lookup id m).0 h
      ]),
      (λ h. inr ((keys-lookup id m).1 h)),
    )
  ]

  All-keys-insert :
      (P : ℕ → Type 0) (id : ℕ) (v : V) (m : Map ℕ V)
      → P id
      → All P (keys m)
      → All P (keys (insert id v m))
  unfolding keys insert
  All-keys-insert P id v [] p h = (p, tt)
  All-keys-insert P id v ((other, w) ∷ m) p h = elim (Bool-cases (nat_eq other id)) [
    | inl same ↦ rw same (p, h.1)
    | inr differs ↦ rw differs (h.0, All-keys-insert P id v m p h.1)
  ]

  All-keys-remove :
      (P : ℕ → Type 0) (id : ℕ) (m : Map ℕ V) → All P (keys m) → All P (keys (remove id m))
  unfolding keys remove
  All-keys-remove P id [] h = tt
  All-keys-remove P id ((other, w) ∷ m) h = elim (Bool-cases (nat_eq other id)) [
    | inl same ↦ rw same (All-keys-remove P id m h.1)
    | inr differs ↦ rw differs (h.0, All-keys-remove P id m h.1)
  ]

  insert-IsDistinct :
      (id : ℕ) (v : V) (m : Map ℕ V) → IsDistinct (keys m) → IsDistinct (keys (insert id v m))
  unfolding keys insert
  insert-IsDistinct id v [] h = (tt, tt)
  insert-IsDistinct id v ((other, w) ∷ m) h = elim (Bool-cases (nat_eq other id)) [
    | inl same ↦
        rw same (subst (λ x. All (λ y. x ≢ y) (keys m)) ((nat_eq_iff other id).0 same) h.0, h.1)
    | inr differs ↦ rw differs (
      All-keys-insert (λ y. other ≢ y) id v m (λ e. cc (differs, (nat_eq_iff other id).1 e)) h.0,
      insert-IsDistinct id v m h.1,
    )
  ]

  remove-IsDistinct : (id : ℕ) (m : Map ℕ V) → IsDistinct (keys m) → IsDistinct (keys (remove id m))
  unfolding keys remove
  remove-IsDistinct id [] h = tt
  remove-IsDistinct id ((other, w) ∷ m) h = elim (Bool-cases (nat_eq other id)) [
    | inl same ↦ rw same (remove-IsDistinct id m h.1)
    | inr differs ↦
        rw differs (All-keys-remove (λ y. other ≢ y) id m h.0, remove-IsDistinct id m h.1)
  ]

get_pending-lookup :
    (id : ℕ) (g : Gate)
    → ((p : PendingIntent) × (lookup id g.pending ≡ some p))
      ↔ ((v : PendingIntentView) × (get_pending id g ≡ some v))
unfolding get_pending
get_pending-lookup id g = elim (Option-cases (lookup id g.pending)) [
  | inl e ↦ rw (e, get_pending) ((λ (p, h). cc h), λ (v, h). cc h)
  | inr (p, e) ↦ rw (e, get_pending) ((λ h. (_, refl)), λ h. (p, refl))
]

-- `list_pending` lists exactly the ids for which `get_pending` answers.
pub list_pending_iff :
    (id : ℕ) (g : Gate)
    → Holds id (list_pending g) ↔ ((v : PendingIntentView) × (get_pending id g ≡ some v))
unfolding list_pending
list_pending_iff id g = (
  (λ h. (get_pending-lookup id g).0 ((keys-lookup id g.pending).0 h)),
  (λ h. (keys-lookup id g.pending).1 ((get_pending-lookup id g).1 h)),
)

Effect-IsDistinct :
    {c : Call} {op : Op} {g g' : Gate}
    → Effect c op g g'
    → IsDistinct (keys g.pending)
    → IsDistinct (keys g'.pending)
Effect-IsDistinct (managed _ _ _ e) h = rw e h
Effect-IsDistinct (cleared _ _ e) h = rw e h
Effect-IsDistinct (priced _ _ _ e) h = rw e h
Effect-IsDistinct (withdrawn _ _ _ e) h = rw e h
Effect-IsDistinct {g = g} (submitted _ _ _ _ _ e) h =
    rw e (insert-IsDistinct g.next_intent_id _ g.pending h)
Effect-IsDistinct {g = g} (resumed id _ _ e) h = rw e (remove-IsDistinct id g.pending h)
Effect-IsDistinct {g = g} (started id _ _ _ _ _ e) h = rw e (remove-IsDistinct id g.pending h)
Effect-IsDistinct {g = g} (linked id _ _ _ e) h = rw e (remove-IsDistinct id g.pending h)
Effect-IsDistinct {g = g} (resolved id _ _ e) h = rw e (remove-IsDistinct id g.pending h)

-- From `new` on, whatever calls are made, `list_pending` lists no id twice.
pub list_pending-IsDistinct :
    (b : Borsh) (k : Crypto) (j : Json) (owner approver : AccountId) (ops : List (Call × Op))
    → IsDistinct (list_pending (attempts b k j ops (new owner approver)))
unfolding list_pending
list_pending-IsDistinct b k j owner approver ops =
    attempts_keep b k j (λ g. IsDistinct (keys g.pending)) (λ c op g g' e h. Effect-IsDistinct e h)
      ops (new owner approver) (unfold new keys in tt)

-- What `get_pending` shows of an accepted intent.
abbrev pub view_of : ℕ → Call → SignedDelegateAction → FunctionCallAction → PendingIntentView
view_of id c s fc = record {
  intent_id = id;
  sender = s.delegate_action.sender_id;
  receiver_id = s.delegate_action.receiver_id;
  method = fc.method_name;
  nonce = s.delegate_action.nonce;
  expires_at_block = s.delegate_action.max_block_height;
  submitted_at_block = c.block_height;
}

lookup-insert_same :
    {V : Type 0} (id : ℕ) (v : V) (m : Map ℕ V) → lookup id (insert id v m) ≡ some v
lookup-insert_same id v m = ground (arith, lookup-insert id id v m, ==_refl id)

lookup-insert_other :
    {V : Type 0} (id other : ℕ) (v : V) (m : Map ℕ V)
    → other ≢ id
    → lookup other (insert id v m) ≡ lookup other m
lookup-insert_other id other v m ne = ground (arith, lookup-insert id other v m)

get_pending_found :
    (id : ℕ) (c : Call) (s : SignedDelegateAction) (fc : FunctionCallAction) (g : Gate)
    → lookup id g.pending ≡ some (intent_of c s.delegate_action fc)
    → get_pending id g ≡ some (view_of id c s fc)
unfolding get_pending
get_pending_found id c s fc g h = rw (h, get_pending)

get_pending_same :
    (id : ℕ) (g g' : Gate)
    → lookup id g.pending ≡ lookup id g'.pending
    → get_pending id g ≡ get_pending id g'
unfolding get_pending
get_pending_same id g g' h = rw (h, get_pending)

-- After an accepted submission, `get_pending` shows under the next id what was signed, with the call's
-- block height, and under every other id what it showed before.
pub submit_intent-get_pending :
    (b : Borsh) (k : Crypto) (j : Json) (c : Call) (bytes : Bytes) (s : SignedDelegateAction)
    (g : Gate) (d : Done Promise)
    → submit_intent b k j c bytes g ≡ ok d
    → parse_signed b bytes ≡ ok s
    → (fc : FunctionCallAction) × (s.delegate_action.actions ≡ function_call fc ∷ [])
      × (get_pending g.next_intent_id d.gate ≡ some (view_of g.next_intent_id c s fc))
      × ((other : ℕ) → other ≢ g.next_intent_id → get_pending other d.gate ≡ get_pending other g)
submit_intent-get_pending b k j c bytes s g d h parsed =
    let (t, fc, payload, a, done) = (submit_intent_iff b k j c bytes g d).0 h in
    let same : t ≡ s = cc (parsed, a.parsed) in
    (
      fc,
      ap (λ (x : SignedDelegateAction). x.delegate_action.actions) (sym same) ∙ a.single,
      ap (λ (x : Done Promise). get_pending g.next_intent_id x.gate) done
          ∙ get_pending_found g.next_intent_id c t fc (submitted_gate c g t.delegate_action fc)
              (lookup-insert_same g.next_intent_id (intent_of c t.delegate_action fc) g.pending)
          ∙ ap (λ x. some (view_of g.next_intent_id c x fc)) same,
      λ other ne.
          ap (λ (x : Done Promise). get_pending other x.gate) done
          ∙ get_pending_same other (submitted_gate c g t.delegate_action fc) g (
              lookup-insert_other g.next_intent_id other (intent_of c t.delegate_action fc)
                g.pending ne),
    )
