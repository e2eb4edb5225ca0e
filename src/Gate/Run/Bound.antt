-- ===== src/Gate/Run/Bound.antt =====
-- The run of a batch (contracts/gate/src/lib.rs) is bounded by its ids, whatever the intents, the yields
-- and the payloads are: each link takes an id off the tail.
use sequential_near.Prelude.{
  ℕ, zero, suc, ◌+◌, ◌≤◌, ◌≡◌, ◌≢◌, ◌∙◌, ap, Option, List, [], ◌∷◌, ◌++◌, Result, ok, err, arith,
  length, length-append, or_panic, >>=-eq-ok, or_panic-eq-err, Result-cases, inl, inr,
}
use mathlib.Core.Path.{subst}
use sequential_near.Host.{Bytes, YieldId, Call}
use sequential_near.Gate.Types.{Json}
use sequential_near.Gate.State.{
  Gate, Panic, Promise, yielded, transfer, function_call, then_continue_chain, PromiseOrValue,
  promise, value, Done,
}
use sequential_near.Gate.Chain.{resume_batch_chained, continue_chain}
use sequential_near.Gate.Chain.Batch.{resume_batch_chained_iff}
use sequential_near.Gate.Chain.Links.{continue_chain_iff}
use sequential_near.Gate.Callback.{on_intent_resumed}
use sequential_near.Gate.Callback.Outcomes.{on_intent_resumed-ok}
use sequential_near.Gate.Run.{
  Halt, no_yield, bad_args, bad_payload, out_of_fuel, lifted, deliver, follow, run_link, run_chain,
}

-- A run that ended after at most `n` calls, or at a panic; not for want of fuel.
abbrev pub IsEnded : ℕ → Result Halt (Gate × List Promise) → Type 0
IsEnded n (ok (g, calls)) = length calls ≤ n
IsEnded n (err h) = h ≢ out_of_fuel

lifted-ok : {A : Type 0} (r : Result Panic A) {a : A} → lifted r ≡ ok a → r ≡ ok a
lifted-ok (ok x) h = cc
lifted-ok (err e) h = cc

lifted-err : {A : Type 0} (r : Result Panic A) → lifted r ≢ err out_of_fuel
lifted-err (ok x) h = cc h
lifted-err (err e) h = cc h

module _ (j : Json) (c : Call) (held : YieldId → Option Bytes) where
  deliver-tail :
      (r : YieldId × Bytes) (g : Gate) (d : Done PromiseOrValue)
      → deliver j c held r g ≡ ok d
      → d.gate.batch_chain_tail ≡ g.batch_chain_tail
  unfolding deliver
  deliver-tail r g d h =
      let (bytes, found, h1) = >>=-eq-ok (or_panic (held r.0) no_yield) _ h in
      let (a, reads, h2) = >>=-eq-ok (or_panic (j.args_from_slice bytes) bad_args) _ h1 in
      let (signal, given, h3) = >>=-eq-ok (or_panic (j.signal_from_slice r.1) bad_payload) _ h2 in
      let (x, y, same) = on_intent_resumed-ok c a (ok signal) g d (lifted-ok _ h3) in
      ap (λ (g : Gate). g.batch_chain_tail) same

  deliver-err : (r : YieldId × Bytes) (g : Gate) → deliver j c held r g ≢ err out_of_fuel
  unfolding deliver
  deliver-err r g h = elim (or_panic-eq-err (held r.0) no_yield _ h) [
    | inl (lost, is) ↦ cc is
    | inr (bytes, found, h1) ↦ elim (or_panic-eq-err (j.args_from_slice bytes) bad_args _ h1) [
      | inl (lost, is) ↦ cc is
      | inr (a, reads, h2) ↦ elim (or_panic-eq-err (j.signal_from_slice r.1) bad_payload _ h2) [
        | inl (lost, is) ↦ cc is
        | inr (signal, given, h3) ↦ lifted-err (on_intent_resumed c a (ok signal) g) h3
      ]
    ]
  ]

  continue_chain-shrinks :
      (id seq : ℕ) (g : Gate) (d : Done PromiseOrValue)
      → continue_chain j c id seq g ≡ ok d
      → length d.resumed + length d.gate.batch_chain_tail ≡ length g.batch_chain_tail
  continue_chain-shrinks id seq g d h =
      let (rest, p, payload, a, same) = (continue_chain_iff j c id seq g d).0 h in
      omega (
        arith,
        ap (λ (x : Done PromiseOrValue). length x.resumed) same,
        ap (λ (x : Done PromiseOrValue). length x.gate.batch_chain_tail) same,
        ap length a.front,
      )

  -- A link leaves no more yields to wake than ids off the tail, after one call at most.
  abbrev IsLinkEnded : ℕ → Result Halt (Gate × List Promise × List (YieldId × Bytes)) → Type 0
  IsLinkEnded n (ok (g, calls, next)) =
      (length next + length g.batch_chain_tail ≤ n) × (length calls ≤ 1)
  IsLinkEnded n (err h) = h ≢ out_of_fuel

  follow-IsLinkEnded :
      (x : PromiseOrValue) (g : Gate)
      → IsLinkEnded (length g.batch_chain_tail) (follow j c held x g)
  unfolding follow
  follow-IsLinkEnded value g = (omega arith, omega arith)
  follow-IsLinkEnded (promise (yielded y bytes gas weight)) g = (omega arith, omega arith)
  follow-IsLinkEnded (promise (transfer to amount)) g = (omega arith, omega arith)
  follow-IsLinkEnded (promise (function_call to method args deposit gas)) g =
      (omega arith, omega arith)
  follow-IsLinkEnded (promise (then_continue_chain p account gas id seq)) g =
      elim (Result-cases (continue_chain j c id seq g)) [
        | inl (d, went) ↦
            rw went (omega (arith, continue_chain-shrinks id seq g d went), omega arith)
        | inr (e, stops) ↦ rw stops (λ is. cc is)
      ]

  run_link-IsLinkEnded :
      (r : YieldId × Bytes) (g : Gate)
      → IsLinkEnded (length g.batch_chain_tail) (run_link j c held r g)
  unfolding run_link
  run_link-IsLinkEnded r g = elim (Result-cases (deliver j c held r g)) [
    | inl (d, went) ↦ rw went (
        subst (λ n. IsLinkEnded n (follow j c held d.result d.gate))
          (ap length (deliver-tail r g d went)) (follow-IsLinkEnded d.result d.gate))
    | inr (e, stops) ↦ rw stops (λ is. deliver-err r g (stops ∙ ap err is))
  ]

  run_chain-IsEnded :
      (fuel : ℕ) (rs : List (YieldId × Bytes)) (g : Gate)
      → length rs + length g.batch_chain_tail ≤ fuel
      → IsEnded (length rs + length g.batch_chain_tail) (run_chain j c held fuel rs g)
  unfolding run_chain
  run_chain-IsEnded fuel [] g enough = omega arith
  run_chain-IsEnded zero (r ∷ rs) g enough = absurd (omega (arith, enough))
  run_chain-IsEnded (suc fuel) (r ∷ rs) g enough = elim (Result-cases (run_link j c held r g)) [
    | inl ((g', calls, next), went) ↦
        let (fewer, one) =
          subst (IsLinkEnded (length g.batch_chain_tail)) went (run_link-IsLinkEnded r g) in
        let ended =
          run_chain-IsEnded fuel (next ++ rs) g'
            (omega (arith, enough, fewer, length-append next rs)) in
        rw went (elim (Result-cases (run_chain j c held fuel (next ++ rs) g')) [
          | inl ((last, later), done) ↦
              let few = subst (IsEnded _) done ended in
              rw done
                (omega (arith, few, fewer, one, length-append next rs, length-append calls later))
          | inr (h, stops) ↦ rw stops (subst (IsEnded _) stops ended)
        ])
    | inr (h, stops) ↦
        rw stops (subst (IsLinkEnded (length g.batch_chain_tail)) stops (run_link-IsLinkEnded r g))
  ]

-- A batch that was accepted comes to an end, whatever its intents, the yields, the payloads and the
-- callback's caller are, also where an id stands in it twice: with fuel for as many links as it has ids,
-- the run makes at most one call for each of them, or stops at a panic; it is never out of fuel.
pub resume_batch_chained_ends :
    (j : Json) (c own_call : Call) (held : YieldId → Option Bytes) (first_id : ℕ) (rest : List ℕ)
    (fuel : ℕ) (g : Gate) (d : Done (Unit {0}))
    → resume_batch_chained j c (first_id ∷ rest) g ≡ ok d
    → length (first_id ∷ rest) ≤ fuel
    → IsEnded (length (first_id ∷ rest)) (run_chain j own_call held fuel d.resumed d.gate)
resume_batch_chained_ends j c own_call held first_id rest fuel g d h enough =
    let (t, p, payload, a, same) = (resume_batch_chained_iff j c first_id rest g d).0 h in
    let size : length d.resumed + length d.gate.batch_chain_tail ≡ length (first_id ∷ rest) =
      omega (
        arith,
        ap (λ (x : Done (Unit {0})). length x.resumed) same,
        ap (λ (x : Done (Unit {0})). length x.gate.batch_chain_tail) same,
      ) in
    subst (λ n. IsEnded n (run_chain j own_call held fuel d.resumed d.gate)) size
      (run_chain-IsEnded j own_call held fuel d.resumed d.gate (omega (arith, size, enough)))
