-- ===== src/Gate/Tests/Fees.antt =====
-- The fees and the nonce keys of the gate (contracts/gate/src/lib.rs) at concrete values.
use sequential_near.Prelude.{Holds, ℕ, ◌+◌, ◌≤◌, ◌≡◌, ◌↔◌, refl, List, [], ◌∷◌, ok, arith, text_eq}
use sequential_near.Host.{AccountId}
use sequential_near.Gate.Nonce.{nonce_key-injective}
use sequential_near.Gate.State.{
  Gate, Tier, Done, Promise, transfer, Event, fee_charged, fees_withdrawn, assert_owner, new,
}
use sequential_near.Gate.Fees.{set_fee_tiers, withdraw_fees, find_tier, last_cap, fee_for}
use sequential_near.Gate.Fees.Ladder.{
  IsLadder, set_fee_tiers_iff, fee_for_iff, fee_for_least, default_fee_tiers-IsLadder,
}
use sequential_near.Gate.Fees.Ledger.{IsCovered, available, withdraw_fees_pays}
use sequential_near.Gate.Tests.{owner, approver, call_by, fresh}

nonce_key-injective_example : (◌≡◌ {A = AccountId} (b'a' ∷ []) (b'a' ∷ [])) × (◌≡◌ {A = ℕ} 41 41)
nonce_key-injective_example =
    nonce_key-injective (b'a' ∷ []) (b'a' ∷ []) 41 41 (omega arith) (omega arith) refl

abbrev two_tiers : List Tier
two_tiers = (5, 10) ∷ (8, 20) ∷ []

owner-owns : (call_by owner).predecessor ≡ fresh.owner_id
unfolding new
owner-owns = refl

set_fee_tiers_iff_example :
    ((d : Done (Unit {0})) × (set_fee_tiers (call_by owner) two_tiers fresh ≡ ok d)
      × (d.gate ≡ record fresh { fee_tiers = two_tiers }))
    ↔ IsLadder two_tiers
set_fee_tiers_iff_example = set_fee_tiers_iff (call_by owner) two_tiers fresh owner-owns

fresh-IsLadder : IsLadder fresh.fee_tiers
unfolding new
fresh-IsLadder = default_fee_tiers-IsLadder

fee_for_iff_example : ((t : Tier) × (fee_for 5 fresh ≡ ok t)) ↔ (5 ≤ last_cap fresh.fee_tiers)
fee_for_iff_example = fee_for_iff 5 fresh fresh-IsLadder

fee_for-five : fee_for 5 fresh ≡ ok (6, 50_000_000_000_000_000_000_000)
unfolding fee_for find_tier new
fee_for-five = refl

fee_for-two : fee_for 2 fresh ≡ ok (3, 30_000_000_000_000_000_000_000)
unfolding fee_for find_tier new
fee_for-two = refl

fee_for_least_example :
    Holds (6, 50_000_000_000_000_000_000_000) fresh.fee_tiers
    × (5 ≤ 6)
    × ((u : Tier) → Holds u fresh.fee_tiers → 5 ≤ u.0 → 6 ≤ u.0)
fee_for_least_example =
    fee_for_least 5 fresh (6, 50_000_000_000_000_000_000_000) fresh-IsLadder fee_for-five

abbrev charged : Gate
charged = record fresh { fees_collected_total = 50_000_000_000_000_000_000_000 }

abbrev charge : Event
charge = fee_charged 5 50_000_000_000_000_000_000_000 6

abbrev collected : Gate
collected = record fresh { fees_collected_total = 100; fees_withdrawn_total = 30 }

collected-IsCovered : IsCovered collected
collected-IsCovered = record { withdrawn_le = omega arith; collected_u128 = omega arith }

abbrev withdrawal : Done Promise
withdrawal = record {
  result = transfer approver 60;
  gate = record collected { fees_withdrawn_total = 90 };
  events = fees_withdrawn 60 approver ∷ [];
  resumed = [];
}

withdraw_fees-sixty : withdraw_fees (call_by owner) 60 approver collected ≡ ok withdrawal
unfolding withdraw_fees assert_owner new text_eq
withdraw_fees-sixty = refl

withdraw_fees_pays_example :
    (withdrawal.result ≡ transfer approver 60)
    × (available withdrawal.gate + 60 ≡ available collected)
    × (withdrawal.gate
        ≡ record collected { fees_withdrawn_total = collected.fees_withdrawn_total + 60 })
    × IsCovered withdrawal.gate
withdraw_fees_pays_example =
    withdraw_fees_pays (call_by owner) 60 approver collected withdrawal collected-IsCovered
      withdraw_fees-sixty
