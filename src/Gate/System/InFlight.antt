-- ===== src/Gate/System/InFlight.antt =====
-- One batch at a time: as long as the owner does not call `reset_batch_tail`, each link of a batch of the
-- gate (contracts/gate/src/lib.rs) meets the tail that it was made for.
use sequential_near.Prelude.{
  ℕ, ◌≤◌, ◌≡◌, ◌⊎◌, ◌∙◌, sym, ap, refl, inl, inr, true, none, some, List, [], ◌∷◌, ◌++◌, ok, err,
  arith, All, All-middle, All-lookup, Holds, length, first, nat_eq, nat_eq_iff, text_eq,
  text_eq_iff, text_key, nat_key, or_panic-eq-err, require-eq-err, Result-cases, >>=-eq-err,
  ok-≢-err, false,
}
use mathlib.Core.Path.{subst}
use sequential_near.Host.{AccountId, Call}
use sequential_near.Borsh.{Borsh}
use sequential_near.Nep366.{Crypto}
use sequential_near.Gate.Types.{PendingIntent, ResumeSignal, Json, JsonLaws}
use sequential_near.Gate.State.{
  Gate, Panic, Done, PromiseOrValue, new, assert_private, empty_tail, tail_mismatch, unknown_intent,
  payload_serialization, resume_failed,
}
use sequential_near.Gate.Chain.{continue_chain, resume_pending}
use sequential_near.Prelude.Map.{lookup}
use sequential_near.Gate.System.{is_held, System, start, IsServed, IsOwnCall, Step}
use sequential_near.Gate.System.Changes.{
  IsSingle, Change, added, managed, fired, timed_out, answered, unanswered, unlinked,
}
use sequential_near.Gate.System.Single.{
  Ending-links, Ending-tail, answered-IsSingle, quiet-IsSingle, unlinked-IsSingle,
}
use sequential_near.Gate.System.Origins.{IsReset, Step-Change_of}

abbrev pub IsSingleSystem : System → Type 0
IsSingleSystem s = IsSingle s.links s.callbacks s.gate.batch_chain_tail

module _ (b : Borsh) (k : Crypto) (j : Json) where
  Change-IsSingle : {s t : System} → Change b k j ⊥ s t → IsSingleSystem s → IsSingleSystem t
  Change-IsSingle (added s c signed fc bytes v o pk fresh) h = h
  Change-IsSingle (managed s g quiet) h = elim quiet.tail [
    | inl same ↦ subst (IsSingle s.links s.callbacks) (sym same) h
    | inr cleared ↦ absurd cleared.0
  ]
  Change-IsSingle (fired s id p signal bytes rest g links approvals f t is backed) h =
      backed.single bytes h
  Change-IsSingle (timed_out s y bytes rest reason t) h =
      quiet-IsSingle s.links s.callbacks s.gate.batch_chain_tail bytes reason h
  Change-IsSingle (answered s front back bytes signal a g fate links split r ending) h =
      let named = (All-middle _ front back (subst (All _) split h.named)).0 in
      let fits = Ending-links (first s.gate.batch_chain_tail) ending named in
      subst (IsSingle (links ++ s.links) (front ++ back)) (sym (Ending-tail ending)) (
        answered-IsSingle s.callbacks front back bytes signal s.links links s.gate.batch_chain_tail
          split h fits.0 fits.1)
  Change-IsSingle (unanswered s front back bytes signal c e split own failed) h =
      answered-IsSingle s.callbacks front back bytes signal s.links [] s.gate.batch_chain_tail split
        h (omega arith) tt
  Change-IsSingle (unlinked s front back l split) h =
      unlinked-IsSingle s.links front back l s.callbacks s.gate.batch_chain_tail split h

one_link : (links : List (ℕ × ℕ)) (l : ℕ × ℕ) → length links ≤ 1 → Holds l links → links ≡ l ∷ []
one_link [] l few due = absurd due
one_link (x ∷ []) l few (inl is) = cc is
one_link (x ∷ []) l few (inr never) = absurd never
one_link (x ∷ y ∷ links) l few due = absurd (omega (arith, few))

-- What can hold up the link for `id`, with its panic: the intent is gone, its payload cannot be
-- written, or its yield no longer waits.
pub data IsHindered (j : Json) (s : System) (id : ℕ) : Panic → Type 0 where
  gone : lookup id s.gate.pending ≡ none → IsHindered j s id (unknown_intent id)
  unwritten :
      (signal : ResumeSignal)
      → j.signal_to_vec signal ≡ none
      → IsHindered j s id payload_serialization
  released :
      (p : PendingIntent)
      → lookup id s.gate.pending ≡ some p
      → is_held p.yield_id s.held ≡ false
      → IsHindered j s id resume_failed

resume_pending-IsHindered :
    (j : Json) (self : AccountId) (c : Call) (s : System) (id : ℕ) (signal : ResumeSignal)
    (g : Gate) (e : Panic)
    → IsServed self c s
    → g.pending ≡ s.gate.pending
    → resume_pending j c id signal g ≡ err e
    → IsHindered j s id e
unfolding resume_pending
resume_pending-IsHindered j self c s id signal g e served same h =
    elim (or_panic-eq-err (lookup id g.pending) (unknown_intent id) _ h) [
      | inl (lost, is) ↦ subst (IsHindered j s id) is (gone (ap (lookup id) (sym same) ∙ lost))
      | inr (p, found, h1) ↦
          elim (or_panic-eq-err (j.signal_to_vec signal) payload_serialization _ h1) [
            | inl (lost, is) ↦ subst (IsHindered j s id) is (unwritten signal lost)
            | inr (payload, packed, h2) ↦
                elim (require-eq-err (c.resumable p.yield_id) resume_failed _ h2) [
                  | inl (dead, is) ↦ subst (IsHindered j s id) is (
                      released p (ap (lookup id) (sym same) ∙ found)
                        (sym (served.alive p.yield_id) ∙ dead))
                  | inr (alive, never) ↦ absurd (ok-≢-err never)
                ]
          ]
    ]

-- A link whose id is the front of the tail does not panic for the tail.
continue_chain-IsHindered :
    (j : Json) (self : AccountId) (c : Call) (s : System) (id seq : ℕ) (e : Panic)
    → IsOwnCall self c s
    → first s.gate.batch_chain_tail ≡ some id
    → continue_chain j c id seq s.gate ≡ err e
    → IsHindered j s id e
unfolding continue_chain assert_private
continue_chain-IsHindered j self c s id seq e own front h =
    elim (require-eq-err (text_eq c.predecessor c.current_account) _ _ h) [
      | inl (other, is) ↦
          let same =
            (text_eq_iff c.predecessor c.current_account).1 (own.own ∙ sym own.served.account) in
          cc (other, same)
      | inr (by, h1) ↦ elim (or_panic-eq-err (first s.gate.batch_chain_tail) empty_tail _ h1) [
        | inl (idle, is) ↦ cc (idle, front)
        | inr (popped, is, h2) ↦
            let same : nat_eq popped id ≡ true = (nat_eq_iff popped id).1 (cc (is, front)) in
            elim (require-eq-err (nat_eq popped id) tail_mismatch _ h2) [
              | inl (other, is) ↦ cc (other, same)
              | inr (by, h3) ↦ elim (>>=-eq-err (resume_pending j c id _ _) _ h3) [
                | inl stop ↦ resume_pending-IsHindered j self c s id _ _ e own.served refl stop
                | inr (x, went, never) ↦ absurd (ok-≢-err never)
              ]
            ]
      ]
    ]

module _ (b : Borsh) (k : Crypto) (j : Json) (self : AccountId) where
  -- The systems that a new gate can come to without a call of `reset_batch_tail`.
  pub data ReachKept (owner approver : AccountId) : System → Type 0 where
    starts : ReachKept owner approver (start owner approver)
    steps :
        {s t : System}
        → ReachKept owner approver s
        → (st : Step b k j self s t) → (IsReset b k j self st → ⊥)
        → ReachKept owner approver t

module _ (b : Borsh) (k : Crypto) (j : Json) (laws : JsonLaws j) (self : AccountId) where
  pub ReachKept-IsSingle :
      {owner approver : AccountId} {s : System}
      → ReachKept b k j self owner approver s
      → IsSingleSystem s
  unfolding new
  ReachKept-IsSingle starts = record { one = omega arith; due = tt; named = tt }
  ReachKept-IsSingle (steps r st kept) =
      Change-IsSingle b k j (Step-Change_of b k j laws self ⊥ st kept) (ReachKept-IsSingle r)

  -- Where JSON reads back what it wrote, and as long as the owner has not called `reset_batch_tail`,
  -- however the calls interleave: a call of `continue_chain` that is due is the only one, and when the
  -- runtime makes it, it goes through, or it panics because its intent is gone, its payload cannot be
  -- written, or its yield no longer waits; never because the tail is empty or begins with another id.
  pub link_meets_tail :
      {owner approver : AccountId} (s : System) (c : Call) (id seq : ℕ)
      → ReachKept b k j self owner approver s
      → IsOwnCall self c s
      → Holds (id, seq) s.links
      → (s.links ≡ (id, seq) ∷ [])
        × (((d : Done PromiseOrValue) × (continue_chain j c id seq s.gate ≡ ok d))
            ⊎ ((e : Panic) × (continue_chain j c id seq s.gate ≡ err e) × IsHindered j s id e))
  link_meets_tail s c id seq r own due =
      let single = ReachKept-IsSingle r in
      (
        one_link s.links (id, seq) (omega (arith, single.one)) due,
        (elim (Result-cases (continue_chain j c id seq s.gate)) [
          | inl went ↦ inl went
          | inr (e, stops) ↦ inr (
            e,
            stops,
            continue_chain-IsHindered j self c s id seq e own
                (All-lookup (λ (l : ℕ × ℕ). first s.gate.batch_chain_tail ≡ some l.0) s.links
                  single.due due)
                stops,
          )
        ]),
      )
