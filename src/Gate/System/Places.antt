-- ===== src/Gate/System/Places.antt =====
-- Where the intents of the gate (contracts/gate/src/lib.rs) are: each waits under its yield, or for its
-- callback, or has ended, in one of these places and once.
use sequential_near.Prelude.{
  ℕ, ◌+◌, ◌≡◌, ◌∙◌, sym, ap, refl, true, none, some, List, [], ◌∷◌, ◌++◌, Result, arith, All,
  All-middle, total, total-middle, inl, inr, nat_eq, Option-cases, Bool-cases, if◌then◌else◌,
}
use mathlib.Core.Path.{subst}
use sequential_near.Host.{Bytes, YieldId}
use sequential_near.Borsh.{Borsh}
use sequential_near.Nep366.{Crypto, FunctionCallAction, SignedDelegateAction, function_call, verify}
use sequential_near.Gate.Types.{ResumeSignal, CallbackArgs, Json, JsonLaws}
use sequential_near.Gate.State.{Gate, Promise, PromiseOrValue, new}
use sequential_near.Gate.State
use sequential_near.Gate.Callback.{PromiseError}
use sequential_near.Gate.Callback.Outcomes.{dispatch_of}
use sequential_near.Gate.Submit.Accepts.{callback_of}
use sequential_near.Gate.System.{System, Fate, dispatched, rejected, failed, take_yield}
use sequential_near.Gate.System.Changes.{
  Ending, refuses, dispatches, Change, added, managed, fired, timed_out, answered, unanswered,
  unlinked,
}

-- A sum over the intents of all places.
abbrev pub amount : (Bytes → ℕ) → System → ℕ
amount f s =
    total (λ (h : YieldId × Bytes). f h.1) s.held
    + (total (λ (r : Bytes × Result PromiseError ResumeSignal). f r.0) s.callbacks
        + total (λ (r : Bytes × Fate). f r.0) s.settled)

-- 1 for the arguments of the intent with this id.
abbrev pub is_of : Json → ℕ → Bytes → ℕ
is_of j id bytes = elim (j.args_from_slice bytes) [
  | none ↦ 0
  | some a ↦ if nat_eq a.intent_id id then 1 else 0
]

abbrev pub is_dispatched : Fate → ℕ
is_dispatched (dispatched p) = 1
is_dispatched rejected = 0
is_dispatched failed = 0

abbrev pub is_rejected : Fate → ℕ
is_rejected (dispatched p) = 0
is_rejected rejected = 1
is_rejected failed = 0

-- What is taken stands in the list, and nothing else goes.
pub record IsSplit (y : YieldId) (held : List (YieldId × Bytes)) (bytes : Bytes)
    (rest : List (YieldId × Bytes)) : Type 0 where
  pub front : List (YieldId × Bytes)
  pub back : List (YieldId × Bytes)
  pub before : held ≡ front ++ (y, bytes) ∷ back
  pub after : rest ≡ front ++ back

pub take_yield-IsSplit :
    (y : YieldId) (held : List (YieldId × Bytes)) {bytes : Bytes} {rest : List (YieldId × Bytes)}
    → take_yield y held ≡ some (bytes, rest)
    → IsSplit y held bytes rest
unfolding take_yield
take_yield-IsSplit y [] h = cc
take_yield-IsSplit y ((z, b) ∷ held) {bytes} {rest} h = elim (Bool-cases (nat_eq z y)) [
  | inl e ↦ record { front = []; back = held; before = ground arith; after = ground arith }
  | inr e ↦ elim (Option-cases (take_yield y held)) [
    | inl gone ↦ absurd (ground arith)
    | inr ((found, others), taken) ↦
        (let t = take_yield-IsSplit y held taken in
          let same = rw (e, taken) at h in
          record {
            front = (z, b) ∷ t.front;
            back = t.back;
            before = cc (same, t.before);
            after = cc (same, t.after);
          })
  ]
]

pub take_yield-All {κ} :
    (Q : YieldId × Bytes → Type κ) (y : YieldId) (held : List (YieldId × Bytes)) {bytes : Bytes}
    {rest : List (YieldId × Bytes)}
    → take_yield y held ≡ some (bytes, rest)
    → All Q held
    → Q (y, bytes) × All Q rest
take_yield-All Q y held h q =
    let t = take_yield-IsSplit y held h in
    let (here, others) = All-middle Q t.front t.back (subst (All Q) t.before q) in
    (here, subst (All Q) (sym t.after) others)

pub take_yield-total :
    (f : Bytes → ℕ) (y : YieldId) (held : List (YieldId × Bytes)) {bytes : Bytes}
    {rest : List (YieldId × Bytes)}
    → take_yield y held ≡ some (bytes, rest)
    → total (λ (h : YieldId × Bytes). f h.1) held
      ≡ f bytes + total (λ (h : YieldId × Bytes). f h.1) rest
take_yield-total f y held {bytes} {rest} h =
    let t = take_yield-IsSplit y held h in
    let sum = λ (hs : List (YieldId × Bytes)). total (λ (h : YieldId × Bytes). f h.1) hs in
    ap sum t.before
    ∙ total-middle (λ (h : YieldId × Bytes). f h.1) t.front t.back (y, bytes)
    ∙ ap (λ n. f bytes + n) (sym (ap sum t.after))

pub callbacks-total :
    (f : Bytes → ℕ) (callbacks front back : List (Bytes × Result PromiseError ResumeSignal))
    (bytes : Bytes) (signal : Result PromiseError ResumeSignal)
    → callbacks ≡ front ++ (bytes, signal) ∷ back
    → total (λ (r : Bytes × Result PromiseError ResumeSignal). f r.0) callbacks
      ≡ f bytes + total (λ (r : Bytes × Result PromiseError ResumeSignal). f r.0) (front ++ back)
callbacks-total f callbacks front back bytes signal split =
    ap (λ rs. total (λ (r : Bytes × Result PromiseError ResumeSignal). f r.0) rs) split
    ∙ total-middle (λ (r : Bytes × Result PromiseError ResumeSignal). f r.0) front back
        (bytes, signal)

module _ (b : Borsh) (k : Crypto) (j : Json) where
  -- The arguments `a` in these bytes are of a call that was signed.
  pub record IsSigned (bytes : Bytes) (a : CallbackArgs) : Type 0 where
    pub reads : j.args_from_slice bytes ≡ some a
    pub signed : SignedDelegateAction
    pub fc : FunctionCallAction
    pub verified : verify b k signed ≡ true
    pub single : signed.delegate_action.actions ≡ function_call fc ∷ []
    pub call :
        dispatch_of a
        ≡ State.function_call signed.delegate_action.receiver_id fc.method_name fc.args fc.deposit
            fc.gas

  pub packed-IsSigned :
      JsonLaws j
      → (s : System) (signed : SignedDelegateAction) (fc : FunctionCallAction) (bytes : Bytes)
      → verify b k signed ≡ true
      → signed.delegate_action.actions ≡ function_call fc ∷ []
      → j.args_to_vec (callback_of s.gate signed.delegate_action fc) ≡ some bytes
      → IsSigned bytes (callback_of s.gate signed.delegate_action fc)
  packed-IsSigned laws s signed fc bytes verified single packed = record {
    reads = laws.args_law _ bytes packed;
    signed = signed;
    fc = fc;
    verified = verified;
    single = single;
    call = refl;
  }

  -- What a change does to a sum: it adds a new intent, with the next id, or moves one.
  pub data Account (f : Bytes → ℕ) (s t : System) : Type 0 where
    moved :
        amount f t ≡ amount f s
        → t.gate.next_intent_id ≡ s.gate.next_intent_id
        → t.gate.intents_submitted ≡ s.gate.intents_submitted
        → Account f s t
    entered :
        (bytes : Bytes) (a : CallbackArgs)
        → IsSigned bytes a
        → a.intent_id ≡ s.gate.next_intent_id
        → amount f t ≡ f bytes + amount f s
        → t.gate.next_intent_id ≡ s.gate.next_intent_id + 1
        → t.gate.intents_submitted ≡ s.gate.intents_submitted + 1
        → Account f s t

  Ending-counts :
      {a : CallbackArgs} {signal : Result PromiseError ResumeSignal} {g g' : Gate} {fate : Fate}
      {links : List (ℕ × ℕ)}
      → Ending a signal g g' fate links
      → (g'.next_intent_id ≡ g.next_intent_id) × (g'.intents_submitted ≡ g.intents_submitted)
  Ending-counts (refuses _ _ _ e) = (cc e, cc e)
  Ending-counts (dispatches _ _ _ _ _ e) = (cc e, cc e)

  pub Change-Account :
      JsonLaws j → (f : Bytes → ℕ) {s t : System} → Change b k j (Unit {0}) s t → Account f s t
  Change-Account laws f (added s c signed fc bytes verified single packed fresh) =
      entered bytes (callback_of s.gate signed.delegate_action fc)
        (packed-IsSigned laws s signed fc bytes verified single packed) refl (omega arith) refl refl
  Change-Account laws f (managed s g is) = moved refl is.next_id is.submitted
  Change-Account laws f (fired s id p signal bytes rest g links approvals found taken is backed) =
      moved (omega (arith, take_yield-total f p.yield_id s.held taken)) is.next_id is.submitted
  Change-Account laws f (timed_out s y bytes rest reason taken) =
      moved (omega (arith, take_yield-total f y s.held taken)) refl refl
  Change-Account laws f (answered s front back bytes signal a g fate links split reads ending) =
      moved (omega (arith, callbacks-total f s.callbacks front back bytes signal split))
        (Ending-counts ending).0 (Ending-counts ending).1
  Change-Account laws f (unanswered s front back bytes signal c h split own fails) =
      moved (omega (arith, callbacks-total f s.callbacks front back bytes signal split)) refl refl
  Change-Account laws f (unlinked s front back l split) = moved refl refl refl
