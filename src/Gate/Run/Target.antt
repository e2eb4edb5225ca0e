-- ===== src/Gate/Run/Target.antt =====
-- A batch on the register (contracts/register/src/lib.rs): the calls that the gate makes are executed
-- there in turn. How near-sdk reads the argument of `set` is a parameter.
use sequential_near.Prelude.{
  ℕ, ◌+◌, ◌≤◌, ◌<◌, ◌≡◌, ◌∙◌, ap, refl, ◌&&◌, Option, none, some, List, [], ◌∷◌, ◌++◌, map, ok, err,
  arith, All, IsDistinct, length, nat_eq, text_eq, if◌then◌else◌, Result-cases, inl, inr,
}
use sequential_near.Prelude.Word.{u32_mod, u64_mod}
use sequential_near.Host.{Bytes, AccountId, YieldId, Call}
use sequential_near.Gate.Types.{PendingIntent, ResumeSignal, Json, JsonLaws}
use sequential_near.Gate.State.{Gate, Done, Promise, function_call}
use sequential_near.Gate.Chain.{resume_batch_chained}
use sequential_near.Gate.Run.{run_chain}
use sequential_near.Gate.Run.Links.{IsWaiting, call_of}
use sequential_near.Gate.Run.Order.{resume_batch_chained-runs}
use sequential_near.Register.{Register, set, get, set_all}
use sequential_near.Register.Order.{last_or, set_all_from}

-- The value of a call of `set` on the account `register`. `set` is not `#[payable]`, so that near-sdk
-- refuses a call of it that carries a deposit.
abbrev pub set_value : AccountId → (Bytes → Option ℕ) → Promise → Option ℕ
set_value register read_value (function_call to method args deposit gas) =
    if text_eq to register && text_eq method (b's' ∷ b'e' ∷ b't' ∷ []) && nat_eq deposit 0
    then read_value args
    else none
set_value register read_value _ = none

-- The calls in turn; a call of anything else, or one that panics, ends the run.
pub execute : AccountId → (Bytes → Option ℕ) → List Promise → Register → Option Register
execute register read_value [] r = some r
execute register read_value (p ∷ ps) r = elim (set_value register read_value p) [
  | none ↦ none
  | some v ↦ elim (set v r) [ err e ↦ none | ok r' ↦ execute register read_value ps r' ]
]

length-map : (val : ℕ → ℕ) (ids : List ℕ) → length (map val ids) ≡ length ids
length-map val [] = refl
length-map val (id ∷ ids) = omega (arith, length-map val ids)

execute-step :
    (register : AccountId) (read_value : Bytes → Option ℕ) (p : Promise) (ps : List Promise) (v : ℕ)
    (r r' : Register)
    → set_value register read_value p ≡ some v
    → set v r ≡ ok r'
    → execute register read_value (p ∷ ps) r ≡ execute register read_value ps r'
unfolding execute
execute-step register read_value p ps v r r' h e = rw (h, execute) (rw e)

execute-map :
    (register : AccountId) (read_value : Bytes → Option ℕ) (call : ℕ → Promise) (val : ℕ → ℕ)
    (ids : List ℕ) (r r' : Register)
    → All (λ id. set_value register read_value (call id) ≡ some (val id)) ids
    → set_all (map val ids) r ≡ ok r'
    → execute register read_value (map call ids) r ≡ some r'
unfolding execute set_all
execute-map register read_value call val [] r r' h e = cc
execute-map register read_value call val (id ∷ ids) r r' h e =
    elim (Result-cases (set (val id) r)) [
      | inl (r1, s) ↦
          execute-step register read_value (call id) (map call ids) (val id) r r1 h.0 s
          ∙ execute-map register read_value call val ids r1 r' h.1 (rw s at e)
      | inr (x, s) ↦ cc
    ]

-- A batch of calls of the register's `set` without a deposit that was accepted leaves its order there:
-- under the conditions of `resume_batch_chained-runs`, and as long as fewer than 2 ^ 32 values are set,
-- the calls that the gate makes all succeed on the register in turn, whose `get` then shows the values
-- of the batch, in the order that the approver gave, behind the earlier ones, the last of them as the
-- current value, and as many more `set`s as the batch has ids.
pub resume_batch_chained-sets :
    (j : Json) (c own_call : Call) (held : YieldId → Option Bytes) (intents : ℕ → PendingIntent)
    (first_id : ℕ) (rest : List ℕ) (fuel : ℕ) (g : Gate) (d : Done (Unit {0}))
    (register : AccountId) (read_value : Bytes → Option ℕ) (val : ℕ → ℕ) (r : Register)
    → JsonLaws j
    → ((s : ResumeSignal) → (bytes : Bytes) × (j.signal_to_vec s ≡ some bytes))
    → own_call.predecessor ≡ own_call.current_account
    → resume_batch_chained j c (first_id ∷ rest) g ≡ ok d
    → IsDistinct (first_id ∷ rest)
    → All (IsWaiting j own_call held intents g) (first_id ∷ rest)
    → g.intents_rejected + 1 < u64_mod
    → g.intents_dispatched + length (first_id ∷ rest) < u64_mod
    → length (first_id ∷ rest) < u32_mod
    → length (first_id ∷ rest) ≤ fuel
    → All
        (λ id. set_value register read_value (call_of j own_call held intents id) ≡ some (val id))
        (first_id ∷ rest)
    → r.set_count + length (first_id ∷ rest) < u32_mod
    → (g' : Gate) × (calls : List Promise) × (r' : Register) × (run_chain j own_call held fuel
          d.resumed d.gate
        ≡ ok (g', calls))
      × (execute register read_value calls r ≡ some r')
      × (get r' ≡ (
        last_or r.current (map val (first_id ∷ rest)),
        r.log ++ map val (first_id ∷ rest),
        r.set_count + length (first_id ∷ rest),
      ))
unfolding get
resume_batch_chained-sets j c own_call held intents first_id rest fuel g d register read_value val r
      laws packs own accepted distinct ws rejected dispatched small enough sets room =
    let (g', runs, _) =
      resume_batch_chained-runs j c own_call held intents first_id rest fuel g d laws packs own
        accepted distinct ws rejected dispatched small enough in
    let ids = first_id ∷ rest in
    let len = length-map val ids in
    let set = set_all_from (map val ids) r (omega (arith, len, room)) in
    (
      g',
      map (call_of j own_call held intents) ids,
      _,
      runs,
      execute-map register read_value (call_of j own_call held intents) val ids r _ sets set,
      ap (λ n. (last_or r.current (map val ids), r.log ++ map val ids, r.set_count + n)) len,
    )
