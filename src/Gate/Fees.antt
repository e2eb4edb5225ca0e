-- ===== src/Gate/Fees.antt =====
-- The fee ladder and the fee ledger of the gate (contracts/gate/src/lib.rs).
pub mod Ladder
pub mod Ledger
use sequential_near.Prelude.{
  ℕ, Bool, true, false, not, Option, none, some, List, [], ◌∷◌, Result, ok, err, ◌>>=◌, ◌>>◌,
  require, or_panic, length, ltb, leb, if◌then◌else◌,
}
use sequential_near.Prelude.Word.{u128_mod, checked_add, checked_sub}
use sequential_near.Host.{AccountId, Call}
use sequential_near.Gate.State.{
  Gate, Tier, Panic, Promise, transfer, Event, Handler, done, assert_owner, no_tiers, zero_cap,
  caps_not_ascending, insufficient_fee_balance, withdrawn_overflow, collected_overflow,
  batch_too_big, insufficient_fee, fee_tiers_set, fees_withdrawn, fee_charged,
}

abbrev pub is_empty {ℓ} : {A : Type ℓ} → List A → Bool
is_empty [] = true
is_empty (x ∷ xs) = false

-- The loop of `set_fee_tiers`, from the cap before on; its result is the last cap.
unfoldable pub check_tiers : ℕ → List Tier → Result Panic ℕ
check_tiers prev_cap [] = ok prev_cap
check_tiers prev_cap ((cap, amount) ∷ tiers) = do
  require (ltb 0 cap) zero_cap
  require (ltb prev_cap cap) caps_not_ascending
  check_tiers cap tiers

-- `Gate::set_fee_tiers`
unfoldable pub set_fee_tiers : Call → List Tier → Handler (Unit {0})
set_fee_tiers c tiers g = do
  assert_owner c g
  require (not (is_empty tiers)) no_tiers
  prev_cap ← check_tiers 0 tiers
  done tt (fee_tiers_set (length tiers) prev_cap ∷ []) (record g { fee_tiers = tiers })

-- `Gate::withdraw_fees`
unfoldable pub withdraw_fees : Call → ℕ → AccountId → Handler Promise
withdraw_fees c amount to g = do
  assert_owner c g
  let available : ℕ = elim (checked_sub g.fees_collected_total g.fees_withdrawn_total) [
    | none ↦ 0
    | some a ↦ a
  ]
  require (leb amount available) (insufficient_fee_balance amount available)
  withdrawn ← or_panic (checked_add u128_mod g.fees_withdrawn_total amount) withdrawn_overflow
  done (transfer to amount) (fees_withdrawn amount to ∷ [])
      (record g { fees_withdrawn_total = withdrawn })

-- The loop of `fee_for`: the first tier whose cap is at least `n`.
unfoldable pub find_tier : ℕ → List Tier → Option Tier
find_tier n [] = none
find_tier n ((cap, amount) ∷ tiers) = if leb n cap then some (cap, amount) else find_tier n tiers

-- `fee_tiers.last().map(|(c, _)| *c).unwrap_or(0)`
abbrev pub last_cap : List Tier → ℕ
last_cap [] = 0
last_cap ((cap, amount) ∷ []) = cap
last_cap ((cap, amount) ∷ tier ∷ tiers) = last_cap (tier ∷ tiers)

-- `Gate::fee_for`
unfoldable pub fee_for : ℕ → Gate → Result Panic Tier
fee_for n g = do
  require (not (is_empty g.fee_tiers)) no_tiers
  or_panic (find_tier n g.fee_tiers) (batch_too_big n (last_cap g.fee_tiers))

-- `Gate::charge_fee`: the state with the fee booked, and the trace.
unfoldable pub charge_fee : Call → ℕ → Gate → Result Panic (Gate × Event)
charge_fee c n g = do
  (tier_cap, required) ← fee_for n g
  let attached = c.attached_deposit
  require (leb required attached) (insufficient_fee required n attached)
  collected ← or_panic (checked_add u128_mod g.fees_collected_total required) collected_overflow
  ok (record g { fees_collected_total = collected }, fee_charged n required tier_cap)
