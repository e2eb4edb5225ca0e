-- ===== src/FtShim.antt =====
-- contracts/ft-shim/src/lib.rs: the token-like target, with balances and a log of the transfers.
pub mod Supply
pub mod Transfers
pub mod Tests
pub mod Suite
use sequential_near.Prelude.{
  ℕ, ◌-◌, Bool, not, Option, none, some, List, [], ◌∷◌, ◌++◌, Result, ok, ◌>>=◌, ◌>>◌, require,
  or_panic, ltb, leb, nat_eq, ◌==◌, text_key, if◌then◌else◌,
}
use sequential_near.Prelude.Map.{Map, lookup, insert, remove}
use sequential_near.Prelude.Word.{u128_mod, checked_add}
use sequential_near.Host.{AccountId, Call}

pub data Panic : Type 0 where
  zero_amount self_transfer insufficient_balance balance_overflow : Panic

pub record FtShim : Type 0 where
  pub total_supply : ℕ
  pub balances : Map AccountId ℕ
  pub transfer_log : List (AccountId × AccountId × ℕ)

-- `balances.get(&id).copied().unwrap_or(0)`
pub balance : AccountId → Map AccountId ℕ → ℕ
balance id m = elim (lookup id m) [ none ↦ 0 | some b ↦ b ]

-- `FtShim::new`
pub new : AccountId → ℕ → FtShim
new owner_id total_supply = record {
  total_supply = total_supply;
  balances = insert owner_id total_supply [];
  transfer_log = [];
}

-- The sender's entry goes where nothing is left of it.
abbrev pub debit : AccountId → ℕ → Map AccountId ℕ → Map AccountId ℕ
debit sender new_sender m =
    if nat_eq new_sender 0 then remove sender m else insert sender new_sender m

-- `FtShim::transfer`; its `env::log_str` line is a trace only.
pub transfer : Call → AccountId → ℕ → FtShim → Result Panic FtShim
unfolding balance
transfer c receiver_id amount ft = do
  let sender = c.predecessor
  require (ltb 0 amount) zero_amount
  require (not (sender == receiver_id)) self_transfer
  let sender_bal = balance sender ft.balances
  require (leb amount sender_bal) insufficient_balance
  let receiver_bal = balance receiver_id ft.balances
  let new_sender = sender_bal - amount
  new_receiver ← or_panic (checked_add u128_mod receiver_bal amount) balance_overflow
  ok (record ft {
    balances = insert receiver_id new_receiver (debit sender new_sender ft.balances);
    transfer_log = ft.transfer_log ++ ((sender, receiver_id, amount) ∷ []);
  })

-- `FtShim::balance_of`
pub balance_of : AccountId → FtShim → ℕ
unfolding balance
balance_of account_id ft = balance account_id ft.balances

-- `FtShim::total_supply`
pub total_supply : FtShim → ℕ
total_supply ft = ft.total_supply

-- `FtShim::get_transfer_log`
pub get_transfer_log : FtShim → List (AccountId × AccountId × ℕ)
get_transfer_log ft = ft.transfer_log
