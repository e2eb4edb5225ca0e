-- ===== src/FtShim/Transfers.antt =====
-- `FtShim::transfer` (contracts/ft-shim/src/lib.rs) on every account and on every branch.
use sequential_near.Prelude.{
  ℕ, ◌+◌, ◌-◌, ◌≤◌, ◌<◌, ◌≡◌, ◌≢◌, ◌↔◌, [], ◌∷◌, ◌++◌, arith, ok, if◌then◌else◌, text_key, text_eq,
  text_eq_iff,
}
use sequential_near.Prelude.Map.{Map, insert, remove, lookup-insert, lookup-remove}
use sequential_near.Prelude.Word.{u128_mod}
use sequential_near.Host.{AccountId, Call}
use sequential_near.FtShim.{FtShim, balance, debit, transfer, balance_of, get_transfer_log}

pub balance-insert :
    (k j : AccountId) (v : ℕ) (m : Map AccountId ℕ)
    → balance j (insert k v m) ≡ (if text_eq k j then v else balance j m)
unfolding balance
balance-insert k j v m = ground (arith, lookup-insert k j v m)

pub balance-remove :
    (k j : AccountId) (m : Map AccountId ℕ)
    → balance j (remove k m) ≡ (if text_eq k j then 0 else balance j m)
unfolding balance
balance-remove k j m = ground (arith, lookup-remove k j m)

pub balance-debit :
    (k j : AccountId) (v : ℕ) (m : Map AccountId ℕ)
    → balance j (debit k v m) ≡ (if text_eq k j then v else balance j m)
balance-debit k j v m = ground (arith, balance-insert k j v m, balance-remove k j m)

-- What `transfer` requires, in the order of its tests.
pub record IsAllowed (c : Call) (to : AccountId) (amount : ℕ) (ft : FtShim) : Type 0 where
  pub positive : 0 < amount
  pub distinct : c.predecessor ≢ to
  pub covered : amount ≤ balance_of c.predecessor ft
  pub fits : balance_of to ft + amount < u128_mod

-- A transfer goes through exactly when the amount is positive, the caller is not the receiver, the
-- caller's balance covers it, and the receiver's balance stays below 2 ^ 128.
pub transfer_ok_iff :
    (c : Call) (to : AccountId) (amount : ℕ) (ft : FtShim)
    → ((ft' : FtShim) × (transfer c to amount ft ≡ ok ft')) ↔ IsAllowed c to amount ft
unfolding transfer balance_of
transfer_ok_iff c to amount ft = (
  (λ h. ground (arith, h.1, text_eq_iff c.predecessor to)),
  (λ h. (
    record ft {
      balances =
          insert to (balance to ft.balances + amount)
            (debit c.predecessor (balance c.predecessor ft.balances - amount) ft.balances);
      transfer_log = ft.transfer_log ++ ((c.predecessor, to, amount) ∷ []);
    },
    ground (arith, text_eq_iff c.predecessor to),
  )),
)

-- The balances after a transfer, at any account.
balance-moved :
    (from to j : AccountId) (left gained : ℕ) (m : Map AccountId ℕ)
    → balance j (insert to gained (debit from left m))
      ≡ (if text_eq to j then gained else if text_eq from j then left else balance j m)
balance-moved from to j left gained m =
    ground (arith, balance-insert to j gained (debit from left m), balance-debit from j left m)

-- A transfer that goes through takes the amount from the caller, gives it to the receiver, leaves
-- every other account and the total supply alone, and adds itself at the end of the log.
pub transfer_moves :
    (c : Call) (to : AccountId) (amount : ℕ) (ft : FtShim) {ft' : FtShim}
    → transfer c to amount ft ≡ ok ft'
    → (balance_of c.predecessor ft' + amount ≡ balance_of c.predecessor ft)
      × (balance_of to ft' ≡ balance_of to ft + amount)
      × ((j : AccountId) → j ≢ c.predecessor → j ≢ to → balance_of j ft' ≡ balance_of j ft)
      × (ft'.total_supply ≡ ft.total_supply)
      × (get_transfer_log ft' ≡ get_transfer_log ft ++ ((c.predecessor, to, amount) ∷ []))
unfolding transfer balance_of get_transfer_log
transfer_moves c to amount ft h = (
  ground (
    arith,
    text_eq_iff to c.predecessor,
    text_eq_iff c.predecessor to,
    text_eq_iff c.predecessor c.predecessor,
    at c.predecessor,
  ),
  ground (arith, text_eq_iff to to, at to),
  (λ j away far. ground (arith, text_eq_iff to j, text_eq_iff c.predecessor j, at j)),
  ground arith,
  ground arith,
)
  where
    at :
        (j : AccountId)
        → balance j (
            insert to
              (balance to ft.balances + amount)
              (debit c.predecessor (balance c.predecessor ft.balances - amount) ft.balances))
          ≡ (if text_eq to j
              then balance to ft.balances + amount
              else if text_eq c.predecessor j
              then balance c.predecessor ft.balances - amount
              else balance j ft.balances)
    at j = balance-moved c.predecessor to j _ _ ft.balances
