-- ===== src/Register/Order.antt =====
-- The register shows the order of its calls: what a run of `set`s leaves behind determines the run.
use sequential_near.Prelude.{
  ℕ, ◌+◌, ◌-◌, ◌<◌, ◌≡◌, refl, ◌∙◌, inl, inr, List, [], ◌∷◌, ◌++◌, append-nil, append_assoc, arith,
  ok, err, Result-cases, length,
}
use sequential_near.Prelude.Word.{u32_mod}
use sequential_near.Register.{count_overflow, Register, default, set, get, reset, set_all}

abbrev pub last_or : ℕ → List ℕ → ℕ
last_or d [] = d
last_or d (v ∷ vs) = last_or v vs

set-ok :
    (v : ℕ) (r : Register)
    → r.set_count + 1 < u32_mod
    → set v r ≡ ok (record { current = v; log = r.log ++ (v ∷ []); set_count = r.set_count + 1 })
unfolding set
set-ok v r h = ground arith

pub set_all_from :
    (vs : List ℕ) (r : Register)
    → r.set_count + length vs < u32_mod
    → set_all vs r
      ≡ ok (record {
        current = last_or r.current vs;
        log = r.log ++ vs;
        set_count = r.set_count + length vs;
      })
unfolding set_all
set_all_from [] r h = rw (append-nil r.log) (ground arith)
set_all_from (v ∷ vs) r h = rw (set-ok v r (omega arith)) (
    ground (
      arith,
      append_assoc r.log (v ∷ []) vs,
      set_all_from vs
          (record { current = v; log = r.log ++ (v ∷ []); set_count = r.set_count + 1 }),
    ))

-- From a fresh register, fewer than 2 ^ 32 `set`s all succeed, and `get` then returns the last value
-- (0 if there was none), the values in the order of the calls, and their number.
pub get-set_all :
    (vs : List ℕ)
    → length vs < u32_mod
    → (r : Register) × (set_all vs default ≡ ok r) × (get r ≡ (last_or 0 vs, vs, length vs))
unfolding default get
get-set_all vs h = (
  record { current = last_or 0 vs; log = vs; set_count = length vs },
  ground (arith, set_all_from vs default),
  refl,
)

set-log : (v : ℕ) (r : Register) {s : Register} → set v r ≡ ok s → s.log ≡ r.log ++ (v ∷ [])
unfolding set
set-log v r h = ground arith

set_all-log :
    (vs : List ℕ) (r : Register) {s : Register} → set_all vs r ≡ ok s → s.log ≡ r.log ++ vs
unfolding set_all
set_all-log [] r h = ground (arith, append-nil r.log)
set_all-log (v ∷ vs) r h = elim (Result-cases (set v r)) [
  | inl (r', e) ↦ set_all-log vs r' (rw e at h) ∙ rw (set-log v r e, append_assoc)
  | inr (p, e) ↦ cc
]

-- Two runs from a fresh register that went through and that `get` cannot tell apart made the same
-- `set`s in the same order.
pub get-set_all_injective :
    (us vs : List ℕ) {r s : Register}
    → set_all us default ≡ ok r
    → set_all vs default ≡ ok s
    → get r ≡ get s
    → us ≡ vs
unfolding default get
get-set_all_injective us vs hu hv e = cc (set_all-log us default hu, set_all-log vs default hv)

-- A `set` on a counter of 2 ^ 32 - 1 panics, so that the register is stuck until `reset`; after
-- `reset` the same `set` succeeds, and `get` shows that one value alone.
pub set_full :
    (v : ℕ) (r : Register)
    → r.set_count ≡ u32_mod - 1
    → (set v r ≡ err count_overflow)
      × ((s : Register) × (set v (reset r) ≡ ok s) × (get s ≡ (v, v ∷ [], 1)))
unfolding set reset get
set_full v r h = (ground arith, (record { current = v; log = v ∷ []; set_count = 1 }, refl, refl))
