-- ===== src/Gate/System/Ends.antt =====
-- Every intent of the gate (contracts/gate/src/lib.rs) ends, dispatched or rejected, once the runtime
-- has nothing left to do; and it comes to that from everywhere.
use sequential_near.Prelude.{
  ℕ, zero, suc, ◌+◌, ◌≤◌, ◌<◌, ◌≡◌, ◌≢◌, ◌⊎◌, ◌∙◌, sym, ap, refl, inl, inr, some, List, [], ◌∷◌,
  ◌++◌, Result, arith, All, total, Result-cases, >>=-eq-ok, or_panic, nat_eq_iff, lt→ltb,
}
use sequential_near.Prelude.Word.{u32_mod}
use sequential_near.Host.{Bytes, AccountId, YieldId, Call}
use sequential_near.Borsh.{Borsh}
use sequential_near.Nep366.{Crypto}
use sequential_near.Gate.Types.{ResumeSignal, Json, JsonLaws}
use sequential_near.Gate.State.{Gate, PromiseOrValue, Done}
use sequential_near.Gate.Callback.{PromiseError, on_intent_resumed}
use sequential_near.Gate.Callback.Outcomes.{on_intent_resumed-ok}
use sequential_near.Gate.Chain.{continue_chain}
use sequential_near.Gate.Chain.Links.{continue_chain_iff}
use sequential_near.Gate.Run.{bad_args}
use sequential_near.Gate.System.{
  System, Fate, dispatched, rejected, failed, take_yield, is_held, answer, IsOwnCall, Move,
  times_out, calls_back, call_back_fails, continues, continue_fails, Moves, rests, moves, Reach,
  steps, runs,
}
use sequential_near.Gate.System.Woken.{fire-gate, lifted-eq-ok}
use sequential_near.Gate.System.Drain.{measure, Move-measure}
use sequential_near.Gate.System.Places.{amount, is_of, is_dispatched, is_rejected}
use sequential_near.Gate.System.Once.{Reach-IsPlaced}
use sequential_near.Gate.System.Numbers.{Reach-IsNumberedAll}

-- Nothing is left for the runtime to do.
pub record IsDrained (s : System) : Type 0 where
  pub held : s.held ≡ []
  pub callbacks : s.callbacks ≡ []
  pub links : s.links ≡ []

take_first :
    (s : System) (y : YieldId) (bytes : Bytes) (rest : List (YieldId × Bytes))
    → s.held ≡ (y, bytes) ∷ rest
    → take_yield y s.held ≡ some (bytes, rest)
unfolding take_yield
take_first s y bytes rest e = rw e (rw ((nat_eq_iff y y).1 refl) refl)

all_ended :
    (settled : List (Bytes × Fate))
    → All (λ (r : Bytes × Fate). r.1 ≢ failed) settled
    → total (λ (r : Bytes × Fate). is_dispatched r.1) settled
        + total (λ (r : Bytes × Fate). is_rejected r.1) settled
      ≡ total (λ (r : Bytes × Fate). 1) settled
all_ended [] h = refl
all_ended ((bytes, dispatched p) ∷ settled) h = omega (arith, all_ended settled h.1)
all_ended ((bytes, rejected) ∷ settled) h = omega (arith, all_ended settled h.1)
all_ended ((bytes, failed) ∷ settled) h = absurd (h.0 refl)

module _ (j : Json) (self : AccountId) where
  abbrev own_call : System → Call
  own_call s = record {
    predecessor = self;
    current_account = self;
    block_height = 0;
    attached_deposit = 0;
    fresh_yield = 0;
    resumable = λ y. is_held y s.held;
  }

  own_call-IsOwnCall : (s : System) → IsOwnCall self (own_call s) s
  own_call-IsOwnCall s = record {
    served = record { account = refl; alive = λ y. refl };
    own = refl;
  }

  abbrev CanMove : System → Type 0
  CanMove s = (t : System) × Move j self s t

  -- The first callback that is due is made, whether it goes through or panics.
  call_back :
      (s : System) (bytes : Bytes) (signal : Result PromiseError ResumeSignal)
      (back : List (Bytes × Result PromiseError ResumeSignal))
      → s.callbacks ≡ (bytes, signal) ∷ back
      → CanMove s
  call_back s bytes signal back e =
      elim (Result-cases (answer j (own_call s) bytes signal s.gate)) [
        | inl (d, goes) ↦
            (_, calls_back s [] back bytes signal (own_call s) d e (own_call-IsOwnCall s) goes)
        | inr (h, panics) ↦ (
          _,
          call_back_fails s [] back bytes signal (own_call s) h e (own_call-IsOwnCall s) panics,
        )
      ]

  link : (s : System) (l : ℕ × ℕ) (back : List (ℕ × ℕ)) → s.links ≡ l ∷ back → CanMove s
  link s l back e = elim (Result-cases (continue_chain j (own_call s) l.0 l.1 s.gate)) [
    | inl (d, goes) ↦ (_, continues s [] back l.0 l.1 (own_call s) d e (own_call-IsOwnCall s) goes)
    | inr (h, panics) ↦
        (_, continue_fails s [] back l.0 l.1 (own_call s) h e (own_call-IsOwnCall s) panics)
  ]

  -- Where anything is left, the runtime can go on.
  progress : (s : System) → IsDrained s ⊎ CanMove s
  progress s = by_held s.held refl
    where
      by_links :
          (links : List (ℕ × ℕ))
          → s.held ≡ []
          → s.callbacks ≡ []
          → s.links ≡ links
          → IsDrained s ⊎ CanMove s
      by_links [] h c e = inl (record { held = h; callbacks = c; links = e })
      by_links (l ∷ links) h c e = inr (link s l links e)

      by_callbacks :
          (callbacks : List (Bytes × Result PromiseError ResumeSignal))
          → s.held ≡ []
          → s.callbacks ≡ callbacks
          → IsDrained s ⊎ CanMove s
      by_callbacks [] h e = by_links s.links h e refl
      by_callbacks ((bytes, signal) ∷ back) h e = inr (call_back s bytes signal back e)

      by_held : (held : List (YieldId × Bytes)) → s.held ≡ held → IsDrained s ⊎ CanMove s
      by_held [] e = by_callbacks s.callbacks e refl
      by_held ((y, bytes) ∷ rest) e =
          inr (_, times_out s y bytes rest [] (take_first s y bytes rest e))

  drain : (fuel : ℕ) (s : System) → measure s ≤ fuel → (t : System) × Moves j self s t × IsDrained t
  drain zero s le = elim (progress s) [
    | inl over ↦ (s, rests s, over)
    | inr (t, m) ↦ absurd (omega (arith, le, Move-measure j self m))
  ]
  drain (suc fuel) s le = elim (progress s) [
    | inl over ↦ (s, rests s, over)
    | inr (t, m) ↦
        (let (u, ms, over) = drain fuel t (omega (arith, le, Move-measure j self m)) in
          (u, moves m ms, over))
  ]

  Move-next : {s t : System} → Move j self s t → t.gate.next_intent_id ≡ s.gate.next_intent_id
  Move-next (times_out s y bytes rest reason taken) = refl
  Move-next (calls_back s front back bytes signal c d split own h) =
      let (a, reads, h1) = >>=-eq-ok (or_panic (j.args_from_slice bytes) bad_args) _ h in
      let went = lifted-eq-ok (on_intent_resumed c a signal s.gate) h1 in
      let (x, y, e) = on_intent_resumed-ok c a signal s.gate d went in cc e
  Move-next (call_back_fails s front back bytes signal c h split own fails) = refl
  Move-next (continues s front back id seq c d split own h) =
      let (rest, p, payload, a, same) = (continue_chain_iff j c id seq s.gate d).0 h in
      ap (λ (g : Gate). g.next_intent_id)
        (fire-gate j d.resumed (record s { gate = d.gate; links = front ++ back }))
      ∙ ap (λ (x : Done PromiseOrValue). x.gate.next_intent_id) same
  Move-next (continue_fails s front back id seq c e split own fails) = refl

  Moves-next : {s t : System} → Moves j self s t → t.gate.next_intent_id ≡ s.gate.next_intent_id
  Moves-next (rests s) = refl
  Moves-next (moves m ms) = Moves-next ms ∙ Move-next m

module _ (b : Borsh) (k : Crypto) (j : Json) (self owner approver : AccountId) where
  -- Nothing is left to do, each intent has ended once, none by a panic, and the counters say so.
  pub record IsOver (s : System) : Type 0 where
    pub drained : IsDrained s
    pub ended :
        (id : ℕ)
        → id < s.gate.next_intent_id
        → total (λ (r : Bytes × Fate). is_of j id r.0) s.settled ≡ 1
    pub unfailed : All (λ (r : Bytes × Fate). r.1 ≢ failed) s.settled
    pub sum : s.gate.intents_dispatched + s.gate.intents_rejected ≡ s.gate.intents_submitted

  amount-drained :
      (f : Bytes → ℕ) (s : System)
      → IsDrained s
      → amount f s ≡ total (λ (r : Bytes × Fate). f r.0) s.settled
  amount-drained f s over = rw (amount, over.held, over.callbacks) (omega arith)

  pub drained-IsOver :
      JsonLaws j
      → {s : System} → Reach b k j self owner approver s
      → s.gate.next_intent_id < u32_mod
      → IsDrained s
      → IsOver s
  drained-IsOver laws {s} r small over =
      let v = Reach-IsPlaced b k j self owner approver laws r in
      let unfailed = (Reach-IsNumberedAll b k j self owner approver laws r small).unfailed in
      record {
        drained = over;
        ended = λ id less.
            sym (amount-drained (is_of j id) s over)
            ∙ (v.placed id ∙ ground (arith, lt→ltb id s.gate.next_intent_id less));
        unfailed = unfailed;
        sum = omega (
          arith,
          v.dispatched,
          v.rejected,
          v.submitted,
          v.counted,
          all_ended s.settled unfailed,
          amount-drained (λ bytes. 1) s over,
        );
      }

  Moves-Reach :
      {s t : System}
      → Moves j self s t
      → Reach b k j self owner approver s
      → Reach b k j self owner approver t
  Moves-Reach (rests s) r = r
  Moves-Reach (moves m ms) r = Moves-Reach ms (steps r (runs m))

  -- Where JSON reads back what it wrote: from every system that a new gate can come to, with fewer
  -- than 2 ^ 32 intents submitted, the runtime comes, by its own steps, to one where no yield,
  -- callback or link is left, and every intent that was submitted has ended once, dispatched or
  -- rejected: the counters of these two add up to the submissions.
  pub every_intent_ends :
      JsonLaws j
      → (s : System) → Reach b k j self owner approver s
      → s.gate.next_intent_id < u32_mod
      → (t : System) × Moves j self s t × IsOver t
  every_intent_ends laws s r small =
      let (t, ms, over) = drain j self (measure s) s (omega arith) in
      (
        t,
        ms,
        drained-IsOver laws (Moves-Reach ms r) (omega (arith, Moves-next j self ms, small)) over,
      )

  -- Where JSON reads back what it wrote: from a system that a new gate can come to, with fewer than
  -- 2 ^ 32 intents submitted, the runtime's own steps, in whatever order it makes them, never get stuck:
  -- as long as not every submitted intent has ended once, without a panic, there is another step to
  -- make.
  pub never_stuck :
      JsonLaws j
      → (s t : System) → Reach b k j self owner approver s
      → s.gate.next_intent_id < u32_mod
      → Moves j self s t
      → IsOver t ⊎ ((u : System) × Move j self t u)
  never_stuck laws s t r small ms = elim (progress j self t) [
    | inl over ↦
        inl
          (drained-IsOver laws (Moves-Reach ms r) (omega (arith, Moves-next j self ms, small)) over)
    | inr further ↦ inr further
  ]
