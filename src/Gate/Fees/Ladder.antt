-- ===== src/Gate/Fees/Ladder.antt =====
-- The fee ladder (contracts/gate/src/lib.rs): `set_fee_tiers` and `fee_for` against the order of the
-- caps.
use sequential_near.Prelude.{
  Holds, ℕ, ◌≤◌, ◌<◌, ◌≡◌, ◌≢◌, ◌↔◌, inl, inr, refl, some, List, [], ◌∷◌, ok, arith, Bool-cases,
  require-eq-ok, or_panic-eq-ok, false, >>=-eq-ok, length, leb, text_eq, text_eq_iff, text_key,
}
use sequential_near.Host.{Call}
use sequential_near.Gate.State.{Gate, Tier, Done, fee_tiers_set, assert_owner, default_fee_tiers}
use sequential_near.Gate.Fees.{is_empty, check_tiers, set_fee_tiers, find_tier, last_cap, fee_for}

-- Every cap is above the one before it, and the first above `prev`.
abbrev pub Ascending : ℕ → List Tier → Type 0
Ascending prev [] = Unit
Ascending prev ((limit, _) ∷ tiers) = (prev < limit) × Ascending limit tiers

abbrev pub IsLadder : List Tier → Type 0
IsLadder tiers = Ascending 0 tiers × (tiers ≢ [])

cons-ne-nil {ℓ} : {A : Type ℓ} {a : A} {more : List A} → (a ∷ more) ≢ []
cons-ne-nil = λ e. cc e

-- The last cap, or `prev` if there is none.
abbrev top : ℕ → List Tier → ℕ
top prev [] = prev
top prev ((limit, _) ∷ tiers) = top limit tiers

check_tiers-ok :
    (prev : ℕ) (tiers : List Tier) (last : ℕ)
    → check_tiers prev tiers ≡ ok last
    → Ascending prev tiers
unfolding check_tiers
check_tiers-ok prev [] last h = tt
check_tiers-ok prev ((limit, amount) ∷ tiers) last h =
    ground (arith, check_tiers-ok limit tiers last)

check_tiers_of_Ascending :
    (prev : ℕ) (tiers : List Tier)
    → Ascending prev tiers
    → check_tiers prev tiers ≡ ok (top prev tiers)
unfolding check_tiers
check_tiers_of_Ascending prev [] h = refl
check_tiers_of_Ascending prev ((limit, amount) ∷ tiers) h =
    ground (arith, check_tiers_of_Ascending limit tiers h.1)

-- A ladder is all that a call can set, and nothing else changes.
pub set_fee_tiers-ok :
    (c : Call) (tiers : List Tier) (g : Gate) (d : Done (Unit {0}))
    → set_fee_tiers c tiers g ≡ ok d
    → IsLadder tiers × (d.gate ≡ record g { fee_tiers = tiers })
unfolding set_fee_tiers assert_owner
set_fee_tiers-ok c [] g d h = ground arith
set_fee_tiers-ok c (t ∷ ts) g d h =
    let (_, e) = require-eq-ok (text_eq c.predecessor g.owner_id) _ _ h in
    let (last, k, same) = >>=-eq-ok (check_tiers 0 (t ∷ ts)) _ e in
    ((check_tiers-ok 0 (t ∷ ts) last k, cons-ne-nil), cc same)

-- The owner can set exactly the ladders: lists of tiers that are not empty, with strictly ascending
-- caps above 0. The call changes the tiers alone.
pub set_fee_tiers_iff :
    (c : Call) (tiers : List Tier) (g : Gate)
    → c.predecessor ≡ g.owner_id
    → ((d : Done (Unit {0})) × (set_fee_tiers c tiers g ≡ ok d)
        × (d.gate ≡ record g { fee_tiers = tiers }))
      ↔ IsLadder tiers
unfolding set_fee_tiers assert_owner
set_fee_tiers_iff c [] g owner = (λ h. ground (arith, h.1), λ h. absurd (h.1 refl))
set_fee_tiers_iff c (t ∷ ts) g owner = (
  (λ (d, h, _). (set_fee_tiers-ok c (t ∷ ts) g d h).0),
  (λ h. (
    record {
      result = tt;
      gate = record g { fee_tiers = t ∷ ts };
      events = fee_tiers_set (length (t ∷ ts)) (top 0 (t ∷ ts)) ∷ [];
      resumed = [];
    },
    ground (arith, text_eq_iff c.predecessor g.owner_id, check_tiers_of_Ascending 0 (t ∷ ts) h.0),
    refl,
  )),
)

find_tier-Holds :
    (n : ℕ) (tiers : List Tier) (t : Tier) → find_tier n tiers ≡ some t → Holds t tiers × (n ≤ t.0)
unfolding find_tier
find_tier-Holds n [] t h = cc
find_tier-Holds n ((limit, amount) ∷ tiers) t h = ground (arith, find_tier-Holds n tiers t)

Ascending-Holds :
    (prev : ℕ) (tiers : List Tier) (t : Tier) → Ascending prev tiers → Holds t tiers → prev < t.0
Ascending-Holds prev [] t a h = absurd h
Ascending-Holds prev ((limit, amount) ∷ tiers) t a (inl e) = ground arith
Ascending-Holds prev ((limit, amount) ∷ tiers) t a (inr h) =
    omega (arith, Ascending-Holds limit tiers t a.1 h)

find_tier_least :
    (n prev : ℕ) (tiers : List Tier) (t u : Tier)
    → Ascending prev tiers
    → find_tier n tiers ≡ some t
    → Holds u tiers
    → n ≤ u.0
    → t.0 ≤ u.0
unfolding find_tier
find_tier_least n prev [] t u a f h le = absurd h
find_tier_least n prev ((limit, amount) ∷ tiers) t u a f (inl e) le = ground arith
find_tier_least n prev ((limit, amount) ∷ tiers) t u a f (inr h) le =
    ground (arith, Ascending-Holds limit tiers u a.1 h, find_tier_least n limit tiers t u a.1, h)

find_tier-some :
    (n prev : ℕ) (tiers : List Tier)
    → Ascending prev tiers
    → tiers ≢ []
    → n ≤ last_cap tiers
    → (t : Tier) × (find_tier n tiers ≡ some t)
unfolding find_tier
find_tier-some n prev [] a ne le = absurd (ne refl)
find_tier-some n prev ((limit, amount) ∷ []) a ne le = ((limit, amount), ground arith)
find_tier-some n prev ((limit, amount) ∷ u ∷ tiers) a ne le = elim (Bool-cases (leb n limit)) [
  | inl t ↦ ((limit, amount), rw t)
  | inr t ↦ rw t (find_tier-some n limit (u ∷ tiers) a.1 cons-ne-nil le)
]

find_tier_above :
    (n prev : ℕ) (tiers : List Tier) (t : Tier)
    → Ascending prev tiers
    → Holds t tiers
    → t.0 ≤ last_cap tiers
find_tier_above n prev [] t a h = absurd h
find_tier_above n prev ((limit, amount) ∷ []) t a h = ground arith
find_tier_above n prev ((limit, amount) ∷ u ∷ tiers) t a (inl e) =
    ground (arith, a.1.0, find_tier_above n limit (u ∷ tiers) u a.1 (inl refl))
find_tier_above n prev ((limit, amount) ∷ u ∷ tiers) t a (inr h) =
    find_tier_above n limit (u ∷ tiers) t a.1 h

fee_for-found :
    (n : ℕ) (g : Gate) {t : Tier} → fee_for n g ≡ ok t → find_tier n g.fee_tiers ≡ some t
unfolding fee_for
fee_for-found n g h =
    let (_, e) = require-eq-ok _ _ _ h in or_panic-eq-ok (find_tier n g.fee_tiers) _ e

fee_for_of_found :
    (n : ℕ) (g : Gate) {t : Tier} → find_tier n g.fee_tiers ≡ some t → fee_for n g ≡ ok t
unfolding fee_for
fee_for_of_found n g h = rw (h, not_empty g.fee_tiers h)
  where
    not_empty : (tiers : List Tier) {t : Tier} → find_tier n tiers ≡ some t → is_empty tiers ≡ false
    not_empty [] e = unfold find_tier in cc e
    not_empty (u ∷ us) e = refl

-- On a ladder, `fee_for` answers exactly the sizes up to the last cap.
pub fee_for_iff :
    (n : ℕ) (g : Gate)
    → IsLadder g.fee_tiers
    → ((t : Tier) × (fee_for n g ≡ ok t)) ↔ (n ≤ last_cap g.fee_tiers)
fee_for_iff n g (a, ne) = (
  (λ (t, h).
      let (held, le) = find_tier-Holds n g.fee_tiers t (fee_for-found n g h) in
      omega (arith, le, find_tier_above n 0 g.fee_tiers t a held)),
  (λ le. let (t, e) = find_tier-some n 0 g.fee_tiers a ne le in (t, fee_for_of_found n g e)),
)

-- On a ladder, the answer of `fee_for` is a tier of the ladder whose cap is at least the size, and the
-- one with the least such cap.
pub fee_for_least :
    (n : ℕ) (g : Gate) (t : Tier)
    → IsLadder g.fee_tiers
    → fee_for n g ≡ ok t
    → Holds t g.fee_tiers × (n ≤ t.0) × ((u : Tier) → Holds u g.fee_tiers → n ≤ u.0 → t.0 ≤ u.0)
fee_for_least n g t (a, ne) h =
    let e = fee_for-found n g h in
    let (held, le) = find_tier-Holds n g.fee_tiers t e in
    (held, le, λ u holds above. find_tier_least n 0 g.fee_tiers t u a e holds above)

-- On a ladder, a larger batch is never matched to a tier with a smaller cap.
pub fee_for_mono :
    (m n : ℕ) (g : Gate) (t u : Tier)
    → IsLadder g.fee_tiers
    → m ≤ n
    → fee_for m g ≡ ok t
    → fee_for n g ≡ ok u
    → t.0 ≤ u.0
fee_for_mono m n g t u l le ht hu =
    let (held, above, _) = fee_for_least n g u l hu in
    let (_, _, least) = fee_for_least m g t l ht in least u held (omega arith)

-- The tiers of a new gate are a ladder.
pub default_fee_tiers-IsLadder : IsLadder default_fee_tiers
default_fee_tiers-IsLadder = (omega arith, cons-ne-nil)
