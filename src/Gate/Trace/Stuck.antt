-- ===== src/Gate/Trace/Stuck.antt =====
-- A batch of the gate (contracts/gate/src/lib.rs) whose next id is not pending: it holds the gate's
-- batches up until the owner resets the tail.
use sequential_near.Prelude.{
  ℕ, ◌<◌, ◌≡◌, ◌≢◌, sym, ap, true, none, List, [], ◌∷◌, ok, arith, nat_key, All, inl, inr, ==_refl,
  refl, leb, leb→le, Bool-cases,
}
use sequential_near.Prelude.Map.{
  Map, contains_key, insert, remove, lookup, lookup-insert, lookup-remove,
}
use mathlib.Core.Path.{subst}
use sequential_near.Host.{Call}
use sequential_near.Borsh.{Borsh}
use sequential_near.Nep366.{Crypto}
use sequential_near.Gate.Types.{Json}
use sequential_near.Gate.State.{Gate, Done, PromiseOrValue, state_of}
use sequential_near.Gate.Chain.{resume_batch_chained, continue_chain}
use sequential_near.Gate.Chain.Batch.{resume_batch_chained_iff, empty_batch_refused}
use sequential_near.Gate.Chain.Links.{continue_chain_iff}
use sequential_near.Gate.Trace.{Op, reset_batch_tail, attempts}
use sequential_near.Gate.Trace.Sound.{IsSound}
use sequential_near.Gate.Trace.Effects.{
  Effect, managed, cleared, priced, withdrawn, submitted, resumed, started, linked, resolved,
}
use sequential_near.Gate.Trace.Keep.{attempts_keep_where}

-- The next id of the batch in flight was given out and is not pending any more.
pub record IsStuck (id : ℕ) (rest : List ℕ) (g : Gate) : Type 0 where
  pub front : g.batch_chain_tail ≡ id ∷ rest
  pub gone : lookup id g.pending ≡ none
  pub given : id < g.next_intent_id

remove_gone :
    {V : Type 0} (id other : ℕ) (m : Map ℕ V)
    → lookup id m ≡ none
    → lookup id (remove other m) ≡ none
remove_gone id other m h = ground (arith, lookup-remove other id m)

insert_gone :
    {V : Type 0} (id other : ℕ) (v : V) (m : Map ℕ V)
    → id < other
    → lookup id m ≡ none
    → lookup id (insert other v m) ≡ none
insert_gone id other v m less h = ground (arith, lookup-insert other id v m)

removed : {V : Type 0} (id : ℕ) (m : Map ℕ V) → lookup id (remove id m) ≡ none
removed id m = ground (arith, lookup-remove id id m, ==_refl id)

not_both : {V : Type 0} (id : ℕ) (m : Map ℕ V) → lookup id m ≡ none → contains_key id m ≡ true → ⊥
unfolding contains_key
not_both id m h e = ground arith

Effect-IsStuck :
    (id : ℕ) (rest : List ℕ) {c : Call} {op : Op} {g g' : Gate}
    → op ≢ reset_batch_tail
    → Effect c op g g'
    → IsStuck id rest g
    → IsStuck id rest g'
Effect-IsStuck id rest keep (managed _ _ _ e) s =
    subst (IsStuck id rest) (sym e) (record { front = s.front; gone = s.gone; given = s.given })
Effect-IsStuck id rest keep (cleared is _ e) s = absurd (keep is)
Effect-IsStuck id rest keep (priced _ _ _ e) s =
    subst (IsStuck id rest) (sym e) (record { front = s.front; gone = s.gone; given = s.given })
Effect-IsStuck id rest keep (withdrawn _ _ _ e) s =
    subst (IsStuck id rest) (sym e) (record { front = s.front; gone = s.gone; given = s.given })
Effect-IsStuck id rest {g = g} keep (submitted d fc _ _ _ e) s =
    subst (IsStuck id rest) (sym e) (record {
      front = s.front;
      gone = insert_gone id g.next_intent_id _ g.pending s.given s.gone;
      given = omega (arith, s.given);
    })
Effect-IsStuck id rest {g = g} keep (resumed other _ _ e) s =
    subst (IsStuck id rest) (sym e)
      (record { front = s.front; gone = remove_gone id other g.pending s.gone; given = s.given })
Effect-IsStuck id rest keep (started _ _ _ idle _ _ e) s = cc (idle, s.front)
Effect-IsStuck id rest {g = g} keep (linked other after front known e) s =
    absurd (not_both id g.pending s.gone (cc (known, front, s.front)))
Effect-IsStuck id rest {g = g} keep (resolved other _ _ e) s =
    subst (IsStuck id rest) (sym e)
      (record { front = s.front; gone = remove_gone id other g.pending s.gone; given = s.given })

-- While the gate is stuck, no link of the batch and no other batch goes through.
pub IsStuck-refuses_link :
    (j : Json) (c : Call) (id : ℕ) (rest : List ℕ) (g : Gate) (next_id seq : ℕ)
    (d : Done PromiseOrValue)
    → IsStuck id rest g
    → ¬ (continue_chain j c next_id seq g ≡ ok d)
IsStuck-refuses_link j c id rest g next_id seq d s h =
    let (after, p, payload, a, done) = (continue_chain_iff j c next_id seq g d).0 h in
    let same : next_id ≡ id = cc (a.front, s.front) in cc (a.resumable.found, s.gone, same)

pub IsStuck-refuses_batch :
    (j : Json) (c : Call) (id : ℕ) (rest : List ℕ) (g : Gate) (ids : List ℕ) (d : Done (Unit {0}))
    → IsStuck id rest g
    → ¬ (resume_batch_chained j c ids g ≡ ok d)
IsStuck-refuses_batch j c id rest g [] d s h = empty_batch_refused j c g (ap state_of h)
IsStuck-refuses_batch j c id rest g (first_id ∷ ids) d s h =
    let (t, p, payload, a, done) = (resume_batch_chained_iff j c first_id ids g d).0 h in
    cc (a.idle, s.front)

-- The two refusals, as they stand after any calls.
abbrev pub Refuses : Json → Gate → Type 0
Refuses j g =
    ((c : Call) (next_id seq : ℕ) (d : Done PromiseOrValue)
      → ¬ (continue_chain j c next_id seq g ≡ ok d))
    × ((c : Call) (ids : List ℕ) (d : Done (Unit {0})) → ¬ (resume_batch_chained j c ids g ≡ ok d))

IsStuck-Refuses : (j : Json) (id : ℕ) (rest : List ℕ) (g : Gate) → IsStuck id rest g → Refuses j g
IsStuck-Refuses j id rest g s = (
  (λ c next_id seq d. IsStuck-refuses_link j c id rest g next_id seq d s),
  (λ c ids d. IsStuck-refuses_batch j c id rest g ids d s),
)

-- Once the next id of a batch in flight was given out and is not pending (its yield timed out, or it was
-- resumed by itself), no link of that batch and no other batch goes through any more, after any calls
-- by anyone that do not include `reset_batch_tail`.
pub stuck_until_reset :
    (b : Borsh) (k : Crypto) (j : Json) (id : ℕ) (rest : List ℕ) (g : Gate) (ops : List (Call × Op))
    → IsStuck id rest g
    → All (λ op. op.1 ≢ reset_batch_tail) ops
    → Refuses j (attempts b k j ops g)
stuck_until_reset b k j id rest g ops s keep = IsStuck-Refuses j id rest (attempts b k j ops g) (
    attempts_keep_where b k j (IsStuck id rest) (λ op. op.1 ≢ reset_batch_tail)
      (λ c op g g' q e p. Effect-IsStuck id rest q e p) ops g keep s)

known_given :
    (id : ℕ) (g : Gate) → IsSound g → contains_key id g.pending ≡ true → id < g.next_intent_id
known_given id g s known = elim (Bool-cases (leb g.next_intent_id id)) [
  | inl le ↦ absurd (not_both id g.pending (s.below id (leb→le _ _ le)) known)
  | inr gt ↦ ground arith
]

-- A batch that names its first id twice in a row and is accepted in a sound gate leaves the gate
-- stuck: no link of it and no other batch goes through, after any calls by anyone that do not
-- include `reset_batch_tail`.
pub repeated_id_stuck :
    (b : Borsh) (k : Crypto) (j : Json) (c : Call) (id : ℕ) (rest : List ℕ) (g : Gate)
    (d : Done (Unit {0})) (ops : List (Call × Op))
    → IsSound g
    → resume_batch_chained j c (id ∷ id ∷ rest) g ≡ ok d
    → All (λ op. op.1 ≢ reset_batch_tail) ops
    → Refuses j (attempts b k j ops d.gate)
repeated_id_stuck b k j c id rest g d ops sound h keep =
    let (t, p, payload, a, done) = (resume_batch_chained_iff j c id (id ∷ rest) g d).0 h in
    stuck_until_reset b k j id rest d.gate ops
      (subst (λ (x : Done (Unit {0})). IsStuck id rest x.gate) (sym done)
        (record {
          front = refl;
          gone = removed id g.pending;
          given = known_given id g sound a.known.0;
        }))
      keep
