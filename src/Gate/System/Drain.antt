-- ===== src/Gate/System/Drain.antt =====
-- The runtime's own steps end: every yield of the gate (contracts/gate/src/lib.rs) is resumed or runs
-- out, and every callback and every link is made, so that every intent ends.
use sequential_near.Prelude.{
  Option, none, some, refl, ℕ, ◌+◌, ◌*◌, ◌≤◌, ◌≡◌, ◌∙◌, sym, ap, some, List, [], ◌∷◌, ◌++◌, arith,
  length, length-append,
}
use mathlib.Core.Path.{subst}
use sequential_near.Host.{Bytes, AccountId, YieldId}
use sequential_near.Gate.Types.{ResumeSignal, Json}
use sequential_near.Gate.State.{PromiseOrValue, promise, value, Done, then_continue_chain}
use sequential_near.Gate.Chain.Links.{continue_chain_iff}
use sequential_near.Gate.System.{
  System, take_yield, wake, fire, next_links, Move, times_out, calls_back, call_back_fails,
  continues, continue_fails, Moves, rests, moves, count,
}
use sequential_near.Gate.System.Places.{take_yield-IsSplit}

-- What the runtime has left to do.
abbrev pub measure : System → ℕ
measure s = 3 * length s.held + (2 * length s.callbacks + length s.links)

length-middle :
    {A : Type 0} (xs front back : List A) (x : A)
    → xs ≡ front ++ x ∷ back
    → length xs ≡ length (front ++ back) + 1
length-middle xs front back x e =
    ap length e ∙ omega (arith, length-append front (x ∷ back), length-append front back)

take_yield-length :
    (y : YieldId) (held : List (YieldId × Bytes)) {bytes : Bytes} {rest : List (YieldId × Bytes)}
    → take_yield y held ≡ some (bytes, rest)
    → length held ≡ length rest + 1
take_yield-length y held {bytes} h =
    let t = take_yield-IsSplit y held h in
    length-middle held t.front t.back (y, bytes) t.before ∙ ap (λ hs. length hs + 1) (sym t.after)

next_links-length : (r : PromiseOrValue) → length (next_links r) ≤ 1
next_links-length value = omega arith
next_links-length (promise (then_continue_chain p account gas id seq)) = omega arith
next_links-length (promise p) = omega arith

wake-measure :
    (y : YieldId) (s : System) (o : Option (Bytes × List (YieldId × Bytes)))
    (signal : Option ResumeSignal)
    → take_yield y s.held ≡ o
    → measure (wake o signal s) ≤ measure s
wake-measure y s none signal taken = omega arith
wake-measure y s (some (bytes, rest)) none taken = omega (arith, take_yield-length y s.held taken)
wake-measure y s (some (bytes, rest)) (some signal) taken =
    omega (arith, take_yield-length y s.held taken)

module _ (j : Json) (self : AccountId) where
  fire-measure :
      (s : System) (y : YieldId) (payload : Bytes)
      → measure (fire j ((y, payload) ∷ []) s) ≤ measure s
  fire-measure s y payload =
      wake-measure y s (take_yield y s.held) (j.signal_from_slice payload) refl

  pub Move-measure : {s t : System} → Move j self s t → measure t + 1 ≤ measure s
  Move-measure (times_out s y bytes rest reason taken) =
      omega (arith, take_yield-length y s.held taken)
  Move-measure (calls_back s front back bytes signal c d split own h) = omega (
    arith,
    length-middle s.callbacks front back (bytes, signal) split,
    next_links-length d.result,
    length-append (next_links d.result) s.links,
  )
  Move-measure (call_back_fails s front back bytes signal c h split own fails) =
      omega (arith, length-middle s.callbacks front back (bytes, signal) split)
  Move-measure (continues s front back id seq c d split own h) =
      let (rest, p, payload, a, same) = (continue_chain_iff j c id seq s.gate d).0 h in
      let fewer = length-middle s.links front back (id, seq) split in
      let fired : measure (fire j d.resumed (record s { gate = d.gate; links = front ++ back }))
          ≤ measure (record s { links = front ++ back }) =
        subst
          (λ (x : Done PromiseOrValue).
            measure (fire j x.resumed (record s { gate = x.gate; links = front ++ back }))
            ≤ measure (record s { links = front ++ back }))
          (sym same)
          (fire-measure (record s { gate = _; links = front ++ back }) p.yield_id payload) in
      omega (arith, fired, fewer)
  Move-measure (continue_fails s front back id seq c e split own fails) =
      omega (arith, length-middle s.links front back (id, seq) split)

  -- However the runtime orders its callbacks, timeouts and links, it makes at most as many steps as
  -- three times the yields, twice the callbacks, and the links come to.
  pub Moves-bounded :
      {s t : System} (ms : Moves j self s t) → count j self ms + measure t ≤ measure s
  Moves-bounded (rests s) = omega arith
  Moves-bounded (moves m ms) = omega (arith, Move-measure m, Moves-bounded ms)
