-- ===== src/Gate/Trace/Keep.antt =====
-- Induction over the calls of the gate (contracts/gate/src/lib.rs): what every effect keeps holds after
-- any calls.
use sequential_near.Prelude.{◌≡◌, refl, List, [], ◌∷◌, Result, ok, err, All}
use sequential_near.Host.{Call}
use sequential_near.Borsh.{Borsh}
use sequential_near.Nep366.{Crypto}
use sequential_near.Gate.Types.{Json}
use sequential_near.Gate.State.{Gate, Panic}
use sequential_near.Gate.Trace.{Op, apply, attempt, attempts}
use sequential_near.Gate.Trace.Effects.{Effect, apply-Effect}

module _ (b : Borsh) (k : Crypto) (j : Json) where
  -- Kept by the effects of the calls with `Q`, a property holds after calls that all have `Q`.
  pub attempts_keep_where {ℓ κ} :
      (P : Gate → Type ℓ) (Q : Call × Op → Type κ)
      → ((c : Call) (op : Op) (g g' : Gate) → Q (c, op) → Effect c op g g' → P g → P g')
      → (ops : List (Call × Op)) (g : Gate) → All Q ops
      → P g
      → P (attempts b k j ops g)
  unfolding attempts
  attempts_keep_where P Q keep [] g q p = p
  attempts_keep_where P Q keep ((c, op) ∷ ops) g q p =
      attempts_keep_where P Q keep ops (attempt b k j (c, op) g) q.1 (one (apply b k j c op g) refl)
    where
      one : (r : Result Panic Gate) → apply b k j c op g ≡ r → P (attempt b k j (c, op) g)
      one (ok g') e =
          unfold attempt in rw (e, attempt) (keep c op g g' q.0 (apply-Effect b k j c op g g' e) p)
      one (err x) e = unfold attempt in rw (e, attempt) p

  All-Unit : (ops : List (Call × Op)) → All (λ op. Unit {0}) ops
  All-Unit [] = tt
  All-Unit (op ∷ ops) = (tt, All-Unit ops)

  pub attempts_keep {ℓ} :
      (P : Gate → Type ℓ)
      → ((c : Call) (op : Op) (g g' : Gate) → Effect c op g g' → P g → P g')
      → (ops : List (Call × Op)) (g : Gate) → P g
      → P (attempts b k j ops g)
  attempts_keep P keep ops g p =
      attempts_keep_where P (λ op. Unit {0}) (λ c op g g' _ e q. keep c op g g' e q) ops g
        (All-Unit ops) p
