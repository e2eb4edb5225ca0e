-- ===== src/FtShim/Tests.antt =====
-- The token (contracts/ft-shim/src/lib.rs) at concrete values.
use sequential_near.Prelude.{
  ◌+◌, ◌≤◌, ◌<◌, ◌≡◌, ◌≢◌, ◌↔◌, refl, false, List, [], ◌∷◌, ◌++◌, ok, arith, text_eq,
}
use sequential_near.Prelude.Map.{insert, lookup}
use sequential_near.Host.{AccountId, Call}
use sequential_near.FtShim.{FtShim, new, transfer, balance_of, balance, get_transfer_log}
use sequential_near.FtShim.Transfers.{transfer_moves}
use sequential_near.FtShim.Supply.{
  IsSound, Request, new-IsSound, transfer_sound_iff, attempts, supply_conserved, total,
}

abbrev alice : AccountId
alice = b'a' ∷ b'l' ∷ []

abbrev bob : AccountId
bob = b'b' ∷ b'o' ∷ []

abbrev by_alice : Call
by_alice = record {
  predecessor = alice;
  current_account = b'f' ∷ b't' ∷ [];
  block_height = 7;
  attached_deposit = 0;
  fresh_yield = 0;
  resumable = λ y. false;
}

abbrev minted : FtShim
minted = new alice 100

abbrev paid : FtShim
paid = record {
  total_supply = 100;
  balances = (alice, 70) ∷ (bob, 30) ∷ [];
  transfer_log = (alice, bob, 30) ∷ [];
}

transfer-paid : transfer by_alice bob 30 minted ≡ ok paid
unfolding transfer balance new insert lookup text_eq
transfer-paid = refl

minted-IsSound : IsSound minted
minted-IsSound = new-IsSound alice 100 (omega arith)

transfer_moves_example :
    (balance_of alice paid + 30 ≡ balance_of alice minted)
    × (balance_of bob paid ≡ balance_of bob minted + 30)
    × ((j : AccountId) → j ≢ alice → j ≢ bob → balance_of j paid ≡ balance_of j minted)
    × (paid.total_supply ≡ minted.total_supply)
    × (get_transfer_log paid ≡ get_transfer_log minted ++ ((alice, bob, 30) ∷ []))
transfer_moves_example = transfer_moves by_alice bob 30 minted transfer-paid

transfer_sound_iff_example :
    ((ft' : FtShim) × (transfer by_alice bob 30 minted ≡ ok ft'))
    ↔ ((0 < 30) × (alice ≢ bob) × (30 ≤ balance_of alice minted))
transfer_sound_iff_example = transfer_sound_iff by_alice bob 30 minted minted-IsSound

-- The second transfer is not covered, and changes nothing.
abbrev two_payments : List Request
two_payments = (by_alice, bob, 30) ∷ (by_alice, bob, 90) ∷ []

supply_conserved_example :
    (total (attempts two_payments (new alice 100)).balances ≡ 100)
    × (balance_of bob (attempts two_payments (new alice 100)) ≤ 100)
supply_conserved_example = supply_conserved alice 100 two_payments bob (omega arith)
