-- ===== src/Gate/Fees/Ledger.antt =====
-- The fee ledger (contracts/gate/src/lib.rs): what `charge_fee` books and `withdraw_fees` pays out.
use sequential_near.Prelude.{
  ℕ, ◌+◌, ◌-◌, ◌≤◌, ◌<◌, ◌≡◌, ◌↔◌, [], ◌∷◌, ok, arith, >>=-eq-ok, text_eq_iff, text_key,
}
use sequential_near.Prelude.Word.{u128_mod}
use sequential_near.Host.{AccountId, Call}
use sequential_near.Gate.State.{
  Gate, Tier, Done, Promise, transfer, Event, fee_charged, fees_withdrawn, assert_owner,
}
use sequential_near.Gate.Fees.{withdraw_fees, fee_for, charge_fee}

-- The two totals are `u128`s, and no more was withdrawn than collected.
pub record IsCovered (g : Gate) : Type 0 where
  pub withdrawn_le : g.fees_withdrawn_total ≤ g.fees_collected_total
  pub collected_u128 : g.fees_collected_total < u128_mod

-- `get_fee_stats`'s difference, the balance that can be withdrawn.
abbrev pub available : Gate → ℕ
available g = g.fees_collected_total - g.fees_withdrawn_total

-- A fee is charged exactly when there is a tier for the size, the deposit covers that tier's fee, and
-- the total stays below 2 ^ 128; then exactly the tier's fee is booked, and nothing else changes.
pub charge_fee_iff :
    (c : Call) (n : ℕ) (g g' : Gate) (e : Event)
    → (charge_fee c n g ≡ ok (g', e)) ↔ (
        (t : Tier) × (fee_for n g ≡ ok t)
        × (t.1 ≤ c.attached_deposit)
        × (g.fees_collected_total + t.1 < u128_mod)
        × (g' ≡ record g { fees_collected_total = g.fees_collected_total + t.1 })
        × (e ≡ fee_charged n t.1 t.0))
unfolding charge_fee
charge_fee_iff c n g g' e = (
  (λ h.
      let (t, found, h1) = >>=-eq-ok (fee_for n g) _ h in
      (t, found, ground (arith, h1), ground (arith, h1), ground (arith, h1), ground (arith, h1))),
  (λ (t, found, paid, fits, p, q). rw (found, p, q) (ground arith)),
)

-- On a covered ledger the owner can withdraw exactly the amounts up to what is available; the
-- overflow check of the withdrawn total never fires.
pub withdraw_fees_iff :
    (c : Call) (amount : ℕ) (to : AccountId) (g : Gate)
    → IsCovered g
    → c.predecessor ≡ g.owner_id
    → ((d : Done Promise) × (withdraw_fees c amount to g ≡ ok d)) ↔ (amount ≤ available g)
unfolding withdraw_fees assert_owner
withdraw_fees_iff c amount to g v owner = (
  (λ (d, h). ground (arith, h)),
  (λ le. (
    record {
      result = transfer to amount;
      gate = record g { fees_withdrawn_total = g.fees_withdrawn_total + amount };
      events = fees_withdrawn amount to ∷ [];
      resumed = [];
    },
    ground (arith, text_eq_iff c.predecessor g.owner_id),
  )),
)

-- A withdrawal that goes through on a covered ledger transfers the amount to the account it names,
-- lowers what is available by that amount, changes no other part of the state, and keeps the ledger
-- covered.
pub withdraw_fees_pays :
    (c : Call) (amount : ℕ) (to : AccountId) (g : Gate) (d : Done Promise)
    → IsCovered g
    → withdraw_fees c amount to g ≡ ok d
    → (d.result ≡ transfer to amount)
      × (available d.gate + amount ≡ available g)
      × (d.gate ≡ record g { fees_withdrawn_total = g.fees_withdrawn_total + amount })
      × IsCovered d.gate
unfolding withdraw_fees assert_owner
withdraw_fees_pays c amount to g d v h = (ground arith, ground arith, ground arith, ground arith)
