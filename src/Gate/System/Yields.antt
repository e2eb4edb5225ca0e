-- ===== src/Gate/System/Yields.antt =====
-- The yields of the gate (contracts/gate/src/lib.rs) and its pending intents: each yield that waits is
-- the pending intent's whose handle it has, so that a resume wakes the intent that it names.
use sequential_near.Prelude.{
  ℕ, ◌+◌, ◌⊎◌, ◌≤◌, ◌≡◌, ◌≢◌, ◌∙◌, sym, ap, refl, some, List, [], ◌∷◌, Result, arith, All, total,
  ltb, nat_eq, nat_eq_iff, nat_key, if◌then◌else◌, Bool-cases, inl, inr, ==_refl,
}
use mathlib.Core.Path.{subst}
use sequential_near.Prelude.Map.{Map, lookup, insert, remove, lookup-insert, lookup-remove}
use sequential_near.Host.{Bytes, AccountId, YieldId}
use sequential_near.Borsh.{Borsh}
use sequential_near.Nep366.{Crypto}
use sequential_near.Gate.Types.{PendingIntent, ResumeSignal, CallbackArgs, Json, JsonLaws}
use sequential_near.Gate.State.{Gate, Promise, function_call, new}
use sequential_near.Gate.Callback.{PromiseError}
use sequential_near.Gate.Callback.Outcomes.{dispatch_of}
use sequential_near.Gate.Submit.Accepts.{callback_of, intent_of}
use sequential_near.Gate.System.{System, Fate, start, Reach, starts, steps, take_yield}
use sequential_near.Gate.System.Changes.{
  Ending, refuses, dispatches, Change, added, managed, fired, timed_out, answered, unanswered,
  unlinked,
}
use sequential_near.Gate.System.Origins.{Step-Change}
use sequential_near.Gate.System.Places.{
  amount, is_of, take_yield-All, take_yield-total, callbacks-total,
}
use sequential_near.Gate.System.Once.{IsPlaced, Reach-IsPlaced}

-- The call of a stored intent.
abbrev pub call_of_intent : PendingIntent → Promise
call_of_intent p = function_call p.receiver_id p.method p.args p.deposit p.gas

-- A callback that goes through takes its intent off, whatever the signal.
Ending-pending :
    {a : CallbackArgs} {signal : Result PromiseError ResumeSignal} {g g' : Gate} {fate : Fate}
    {links : List (ℕ × ℕ)}
    → Ending a signal g g' fate links
    → g'.pending ≡ remove a.intent_id g.pending
Ending-pending (refuses _ _ _ e) = cc e
Ending-pending (dispatches _ _ _ _ _ e) = cc e

module _ (j : Json) where
  -- The yield is that of a pending intent, which has the call that the arguments have.
  pub record IsYieldOf (m : Map ℕ PendingIntent) (y : YieldId) (bytes : Bytes) : Type 0 where
    pub a : CallbackArgs
    pub p : PendingIntent
    pub reads : j.args_from_slice bytes ≡ some a
    pub pending : lookup a.intent_id m ≡ some p
    pub handle : p.yield_id ≡ y
    pub call : dispatch_of a ≡ call_of_intent p

  -- No two pending intents have one handle.
  abbrev pub HasHandles : Map ℕ PendingIntent → Type 0
  HasHandles m =
      (id other : ℕ) (p q : PendingIntent)
      → lookup id m ≡ some p
      → lookup other m ≡ some q
      → p.yield_id ≡ q.yield_id
      → id ≡ other

  abbrev pub AreYieldsOf : Map ℕ PendingIntent → List (YieldId × Bytes) → Type 0
  AreYieldsOf m held = All (λ (h : YieldId × Bytes). IsYieldOf m h.0 h.1) held

  pub record IsMatched (s : System) : Type 0 where
    pub yields : AreYieldsOf s.gate.pending s.held
    pub handles : HasHandles s.gate.pending

  -- The other intents stay as they are.
  abbrev IsElsewhere : ℕ → Map ℕ PendingIntent → Map ℕ PendingIntent → Type 0
  IsElsewhere id m m' = (other : ℕ) → id ≢ other → lookup other m' ≡ lookup other m

  is_of_eq :
      (id : ℕ) (bytes : Bytes) (a : CallbackArgs)
      → j.args_from_slice bytes ≡ some a
      → is_of j id bytes ≡ (if nat_eq a.intent_id id then 1 else 0)
  is_of_eq id bytes a reads = rw (is_of, reads) refl

  apart :
      (id : ℕ) (bytes : Bytes) (a : CallbackArgs)
      → j.args_from_slice bytes ≡ some a
      → (others : ℕ) → is_of j id bytes + others ≡ 0
      → id ≢ a.intent_id
  apart id bytes a reads others empty same =
      let one = is_of_eq id bytes a reads in
      let shut = (nat_eq_iff a.intent_id id).1 (sym same) in ground (arith, one, shut, empty)

  yields_elsewhere :
      (id : ℕ) (m m' : Map ℕ PendingIntent) (held : List (YieldId × Bytes))
      → IsElsewhere id m m'
      → total (λ (h : YieldId × Bytes). is_of j id h.1) held ≡ 0
      → AreYieldsOf m held
      → AreYieldsOf m' held
  yields_elsewhere id m m' [] keep empty v = tt
  yields_elsewhere id m m' ((y, bytes) ∷ held) keep empty v = (
    record {
      a = v.0.a;
      p = v.0.p;
      reads = v.0.reads;
      pending =
          keep v.0.a.intent_id (λ same. apart id bytes v.0.a v.0.reads _ empty same) ∙ v.0.pending;
      handle = v.0.handle;
      call = v.0.call;
    },
    yields_elsewhere id m m' held keep (omega (arith, empty)) v.1,
  )

  remove-IsElsewhere : (id : ℕ) (m : Map ℕ PendingIntent) → IsElsewhere id m (remove id m)
  remove-IsElsewhere id m other differs = ground (arith, lookup-remove id other m, differs)

  insert-IsElsewhere :
      (id : ℕ) (p : PendingIntent) (m : Map ℕ PendingIntent) → IsElsewhere id m (insert id p m)
  insert-IsElsewhere id p m other differs = ground (arith, lookup-insert id other p m, differs)

  inserted :
      (id : ℕ) (p : PendingIntent) (m : Map ℕ PendingIntent) → lookup id (insert id p m) ≡ some p
  inserted id p m = ground (arith, lookup-insert id id p m, ==_refl id)

  is_of_one :
      (id : ℕ) (bytes : Bytes) (a : CallbackArgs)
      → j.args_from_slice bytes ≡ some a
      → a.intent_id ≡ id
      → 1 ≤ is_of j id bytes
  is_of_one id bytes a reads same =
      let one = is_of_eq id bytes a reads in
      let shut = (nat_eq_iff a.intent_id id).1 same in ground (arith, one, shut)

  -- At most one place has the id: none of the yields that are left.
  alone :
      (s : System) (id here held : ℕ)
      → amount (is_of j id) s ≡ (if ltb id s.gate.next_intent_id then 1 else 0)
      → here + held ≤ amount (is_of j id) s
      → 1 ≤ here
      → held ≡ 0
  alone s id here held placed sum one = ground (arith, placed, sum, one)

  remove-HasHandles : (id : ℕ) (m : Map ℕ PendingIntent) → HasHandles m → HasHandles (remove id m)
  remove-HasHandles id m h i other p q hp hq same =
      h i other p q (still i p hp) (still other q hq) same
    where
      still : (i : ℕ) (p : PendingIntent) → lookup i (remove id m) ≡ some p → lookup i m ≡ some p
      still i p e = ground (arith, lookup-remove id i m, e)

  insert-HasHandles :
      (id : ℕ) (p : PendingIntent) (m : Map ℕ PendingIntent)
      → ((i : ℕ) (q : PendingIntent) → lookup i m ≡ some q → q.yield_id ≢ p.yield_id)
      → HasHandles m
      → HasHandles (insert id p m)
  insert-HasHandles id p m fresh h i other q r hq hr same = elim (found i q hq) [
    | inl (at_id, is_p) ↦ elim (found other r hr) [
      | inl (also, is_p_too) ↦ sym at_id ∙ also
      | inr old ↦
          absurd (fresh other r old (sym same ∙ ap (λ (x : PendingIntent). x.yield_id) is_p))
    ]
    | inr old ↦ elim (found other r hr) [
      | inl (also, is_p) ↦
          absurd (fresh i q old (same ∙ ap (λ (x : PendingIntent). x.yield_id) is_p))
      | inr old_too ↦ h i other q r old old_too same
    ]
  ]
    where
      found :
          (i : ℕ) (q : PendingIntent)
          → lookup i (insert id p m) ≡ some q
          → ((id ≡ i) × (q ≡ p)) ⊎ (lookup i m ≡ some q)
      found i q e = elim (Bool-cases (nat_eq id i)) [
        | inl shut ↦ inl ((nat_eq_iff id i).0 shut, ground (arith, lookup-insert id i p m, e, shut))
        | inr differs ↦ inr (ground (arith, lookup-insert id i p m, e, differs))
      ]

  -- A resume wakes the intent that it names.
  pub fired_id :
      (s : System) (id : ℕ) (p : PendingIntent) (bytes : Bytes) (rest : List (YieldId × Bytes))
      → IsMatched s
      → lookup id s.gate.pending ≡ some p
      → take_yield p.yield_id s.held ≡ some (bytes, rest)
      → (a : CallbackArgs) × (j.args_from_slice bytes ≡ some a)
        × (a.intent_id ≡ id)
        × (dispatch_of a ≡ call_of_intent p)
  fired_id s id p bytes rest m found taken =
      let (w, others) = take_yield-All _ p.yield_id s.held taken m.yields in
      let same = m.handles w.a.intent_id id w.p p w.pending found w.handle in
      let is_p : w.p ≡ p = cc (w.pending, found, same) in
      (w.a, w.reads, same, w.call ∙ ap call_of_intent is_p)

module _ (b : Borsh) (k : Crypto) (j : Json) where
  Change-IsMatched :
      JsonLaws j
      → {s t : System} → Change b k j (Unit {0}) s t
      → IsPlaced b k j s
      → IsMatched j s
      → IsMatched j t
  Change-IsMatched laws (added s c signed fc bytes verified single packed fresh) v m = record {
    yields = (
      record {
        a = callback_of s.gate signed.delegate_action fc;
        p = intent_of c signed.delegate_action fc;
        reads = laws.args_law _ bytes packed;
        pending =
            inserted j s.gate.next_intent_id (intent_of c signed.delegate_action fc) s.gate.pending;
        handle = refl;
        call = refl;
      },
      yields_elsewhere j s.gate.next_intent_id s.gate.pending _ s.held
          (insert-IsElsewhere j s.gate.next_intent_id (intent_of c signed.delegate_action fc)
            s.gate.pending)
          (ground (arith, v.placed s.gate.next_intent_id)) m.yields,
    );
    handles =
        insert-HasHandles j s.gate.next_intent_id (intent_of c signed.delegate_action fc)
          s.gate.pending fresh m.handles;
  }
  Change-IsMatched laws (managed s g is) v m = record {
    yields = subst (λ x. AreYieldsOf j x s.held) (sym is.pending) m.yields;
    handles = subst (HasHandles j) (sym is.pending) m.handles;
  }
  Change-IsMatched laws (fired s id p signal bytes rest g links approvals found taken is backed) v
        m =
      let (a, reads, same, call) = fired_id j s id p bytes rest m found taken in
      record {
        yields =
            subst (λ x. AreYieldsOf j x rest) (sym is.pending)
              (yields_elsewhere j id s.gate.pending _ rest (remove-IsElsewhere j id s.gate.pending)
                (alone j s id (is_of j id bytes) _ (v.placed id)
                  (omega (arith, take_yield-total (is_of j id) p.yield_id s.held taken))
                  (is_of_one j id bytes a reads same))
                (take_yield-All _ p.yield_id s.held taken m.yields).1);
        handles =
            subst (HasHandles j) (sym is.pending) (remove-HasHandles j id s.gate.pending m.handles);
      }
  Change-IsMatched laws (timed_out s y bytes rest reason taken) v m = record {
    yields = (take_yield-All _ y s.held taken m.yields).1;
    handles = m.handles;
  }
  Change-IsMatched laws (answered s front back bytes signal a g fate links split reads e) v m =
      let taken = Ending-pending e in
      record {
        yields =
            subst (λ x. AreYieldsOf j x s.held) (sym taken)
              (yields_elsewhere j a.intent_id s.gate.pending _ s.held
                (remove-IsElsewhere j a.intent_id s.gate.pending)
                (alone j s a.intent_id (is_of j a.intent_id bytes) _ (v.placed a.intent_id)
                  (omega (
                    arith,
                    callbacks-total (is_of j a.intent_id) s.callbacks front back bytes signal split,
                  ))
                  (is_of_one j a.intent_id bytes a reads refl))
                m.yields);
        handles =
            subst (HasHandles j) (sym taken)
              (remove-HasHandles j a.intent_id s.gate.pending m.handles);
      }
  Change-IsMatched laws (unanswered s front back bytes signal c h split own fails) v m = record {
    yields = m.yields;
    handles = m.handles;
  }
  Change-IsMatched laws (unlinked s front back l split) v m = record {
    yields = m.yields;
    handles = m.handles;
  }

  start-IsMatched : (owner approver : AccountId) → IsMatched j (start owner approver)
  unfolding new lookup
  start-IsMatched owner approver = record {
    yields = tt;
    handles = λ id other p q found also same. cc found;
  }

  -- Where JSON reads back what it wrote: in every system that a new gate can come to, no two
  -- pending intents have one handle, and each yield that waits is a pending intent's, with the
  -- arguments of its call.
  pub Reach-IsMatched :
      (self owner approver : AccountId)
      → JsonLaws j
      → {s : System} → Reach b k j self owner approver s
      → IsMatched j s
  Reach-IsMatched self owner approver laws starts = start-IsMatched owner approver
  Reach-IsMatched self owner approver laws (steps r st) =
      Change-IsMatched laws (Step-Change b k j laws self st)
        (Reach-IsPlaced b k j self owner approver laws r)
        (Reach-IsMatched self owner approver laws r)
