-- ===== src/Gate/Suite/Tiers.antt =====
-- The unit tests of contracts/gate/src/lib.rs on the fees that need no resume, which the model passes.
use sequential_near.Prelude.{
  ◌≡◌, refl, [], ◌∷◌, ok, err, ◌>>=◌, ◌>>◌, text_key, nat_key, text_eq, length, first, tail,
  or_panic,
}
use sequential_near.Prelude.Suite.{Verdict, panicked, asserted, call, assert_eq}
use sequential_near.Gate.Suite.{
  owner, approver, alice, with_ctx, tier1_yocto, tier2_yocto, tier3_yocto, run,
}
use sequential_near.Gate.State.{
  Panic, new, assert_owner, not_owner, batch_too_big, no_tiers, zero_cap, caps_not_ascending,
  insufficient_fee_balance,
}
use sequential_near.Gate.Fees.{fee_for, find_tier, set_fee_tiers, check_tiers, withdraw_fees}
use sequential_near.Gate.Views.{get_fee_tiers}

default_fee_tiers_are_seeded : Verdict Panic
default_fee_tiers_are_seeded = do
  let gate = new owner approver
  let tiers = get_fee_tiers gate
  assert_eq (length tiers) 3
  t0 ← or_panic (first tiers) asserted
  assert_eq t0.0 3
  assert_eq t0.1 tier1_yocto
  t1 ← or_panic (first (tail tiers)) asserted
  assert_eq t1.0 6
  assert_eq t1.1 tier2_yocto
  t2 ← or_panic (first (tail (tail tiers))) asserted
  assert_eq t2.0 12
  assert_eq t2.1 tier3_yocto

fee_for_maps_size_to_tier : Verdict Panic
fee_for_maps_size_to_tier = do
  let gate = new owner approver
  t ← call (fee_for 1 gate)
  assert_eq t.0 3
  assert_eq t.1 tier1_yocto
  t ← call (fee_for 3 gate)
  assert_eq t.0 3
  assert_eq t.1 tier1_yocto
  t ← call (fee_for 4 gate)
  assert_eq t.0 6
  assert_eq t.1 tier2_yocto
  t ← call (fee_for 6 gate)
  assert_eq t.0 6
  assert_eq t.1 tier2_yocto
  t ← call (fee_for 7 gate)
  assert_eq t.0 12
  assert_eq t.1 tier3_yocto
  t ← call (fee_for 12 gate)
  assert_eq t.0 12
  assert_eq t.1 tier3_yocto

fee_for_panics_above_max_cap : Verdict Panic
fee_for_panics_above_max_cap = do let gate = new owner approver; t ← call (fee_for 13 gate); ok tt

set_fee_tiers_rejects_non_owner : Verdict Panic
set_fee_tiers_rejects_non_owner = do
  let gate = new owner approver
  gate ← run (set_fee_tiers (with_ctx alice 101) ((5, 1) ∷ []) gate)
  ok tt

set_fee_tiers_rejects_empty : Verdict Panic
set_fee_tiers_rejects_empty = do
  let gate = new owner approver
  gate ← run (set_fee_tiers (with_ctx owner 101) [] gate)
  ok tt

set_fee_tiers_rejects_non_ascending_caps : Verdict Panic
set_fee_tiers_rejects_non_ascending_caps = do
  let gate = new owner approver
  gate ← run (set_fee_tiers (with_ctx owner 101) ((5, 1) ∷ (3, 2) ∷ []) gate)
  ok tt

set_fee_tiers_rejects_zero_cap : Verdict Panic
set_fee_tiers_rejects_zero_cap = do
  let gate = new owner approver
  gate ← run (set_fee_tiers (with_ctx owner 101) ((0, 1) ∷ []) gate)
  ok tt

withdraw_fees_rejects_non_owner : Verdict Panic
withdraw_fees_rejects_non_owner = do
  let gate = new owner approver
  gate ← run (withdraw_fees (with_ctx alice 101) 0 alice gate)
  ok tt

withdraw_fees_rejects_over_available : Verdict Panic
withdraw_fees_rejects_over_available = do
  let gate = new owner approver
  gate ← run (withdraw_fees (with_ctx owner 101) 1 alice gate)
  ok tt

default_fee_tiers_are_seeded_lem : default_fee_tiers_are_seeded ≡ ok tt
unfolding default_fee_tiers_are_seeded new
default_fee_tiers_are_seeded_lem = refl

fee_for_maps_size_to_tier_lem : fee_for_maps_size_to_tier ≡ ok tt
unfolding fee_for_maps_size_to_tier new fee_for find_tier
fee_for_maps_size_to_tier_lem = refl

fee_for_panics_above_max_cap_lem :
    fee_for_panics_above_max_cap ≡ err (panicked (batch_too_big 13 12))
unfolding fee_for_panics_above_max_cap new fee_for find_tier
fee_for_panics_above_max_cap_lem = refl

set_fee_tiers_rejects_non_owner_lem : set_fee_tiers_rejects_non_owner ≡ err (panicked not_owner)
unfolding set_fee_tiers_rejects_non_owner new text_eq assert_owner set_fee_tiers check_tiers
set_fee_tiers_rejects_non_owner_lem = refl

set_fee_tiers_rejects_empty_lem : set_fee_tiers_rejects_empty ≡ err (panicked no_tiers)
unfolding set_fee_tiers_rejects_empty new text_eq assert_owner set_fee_tiers check_tiers
set_fee_tiers_rejects_empty_lem = refl

set_fee_tiers_rejects_non_ascending_caps_lem :
    set_fee_tiers_rejects_non_ascending_caps ≡ err (panicked caps_not_ascending)
unfolding set_fee_tiers_rejects_non_ascending_caps new text_eq assert_owner set_fee_tiers
    check_tiers
set_fee_tiers_rejects_non_ascending_caps_lem = refl

set_fee_tiers_rejects_zero_cap_lem : set_fee_tiers_rejects_zero_cap ≡ err (panicked zero_cap)
unfolding set_fee_tiers_rejects_zero_cap new text_eq assert_owner set_fee_tiers check_tiers
set_fee_tiers_rejects_zero_cap_lem = refl

withdraw_fees_rejects_non_owner_lem : withdraw_fees_rejects_non_owner ≡ err (panicked not_owner)
unfolding withdraw_fees_rejects_non_owner new text_eq assert_owner withdraw_fees
withdraw_fees_rejects_non_owner_lem = refl

withdraw_fees_rejects_over_available_lem :
    withdraw_fees_rejects_over_available ≡ err (panicked (insufficient_fee_balance 1 0))
unfolding withdraw_fees_rejects_over_available new text_eq assert_owner withdraw_fees
withdraw_fees_rejects_over_available_lem = refl
