-- ===== src/Host.antt =====
-- What a contract reads from the NEAR runtime during one call, through near-sdk's `env`. The runtime
-- is not part of the repository: its answers are data of the call.
use sequential_near.Prelude.{ℕ, List, Bool}

abbrev pub Bytes : Type 0
Bytes = List ℕ

-- `String` as its bytes in UTF-8, and `AccountId`, which is such a text.
abbrev pub Text : Type 0
Text = List ℕ

abbrev pub AccountId : Type 0
AccountId = Text

-- The handle that near-sdk gives to a yielded promise.
abbrev pub YieldId : Type 0
YieldId = ℕ

pub record Call : Type 0 where
  -- `env::predecessor_account_id()`
  pub predecessor : AccountId
  -- `env::current_account_id()`
  pub current_account : AccountId
  -- `env::block_height()`
  pub block_height : ℕ
  -- `env::attached_deposit()`, in yocto
  pub attached_deposit : ℕ
  -- the handle that `Promise::new_yield` returns, should the call make one
  pub fresh_yield : YieldId
  -- whether `yield_id.resume(_)` finds the yield, which it does not once that has expired
  pub resumable : YieldId → Bool
