-- ===== src/FtShim/Suite.antt =====
-- The unit tests of contracts/ft-shim/src/lib.rs, which the model passes.
use sequential_near.Prelude.{
  ℕ, ◌≡◌, refl, false, first, or_panic, List, [], ◌∷◌, map, ok, err, ◌>>=◌, ◌>>◌, text_key, nat_key,
  text_eq, length,
}
use sequential_near.Prelude.Map.{lookup, insert, remove}
use sequential_near.Prelude.Suite.{Verdict, panicked, asserted, call, assert_eq}
use sequential_near.Host.{AccountId, Call}
use sequential_near.FtShim.{
  Panic, zero_amount, self_transfer, insufficient_balance, new, transfer, balance, balance_of,
  total_supply, get_transfer_log,
}

abbrev owner : AccountId
owner = b'o' ∷ b'w' ∷ b'n' ∷ b'e' ∷ b'r' ∷ b'.' ∷ b't' ∷ b'e' ∷ b's' ∷ b't' ∷ []

abbrev alice : AccountId
alice = b'a' ∷ b'l' ∷ b'i' ∷ b'c' ∷ b'e' ∷ b'.' ∷ b't' ∷ b'e' ∷ b's' ∷ b't' ∷ []

abbrev bob : AccountId
bob = b'b' ∷ b'o' ∷ b'b' ∷ b'.' ∷ b't' ∷ b'e' ∷ b's' ∷ b't' ∷ []

abbrev ctx : AccountId → Call
ctx predecessor = record {
  predecessor = predecessor;
  current_account = [];
  block_height = 0;
  attached_deposit = 0;
  fresh_yield = 0;
  resumable = λ y. false;
}

init_mints_all_supply_to_owner : Verdict Panic
init_mints_all_supply_to_owner = do
  let ft = new owner 1_000
  assert_eq (balance_of owner ft) 1_000
  assert_eq (balance_of alice ft) 0
  assert_eq (total_supply ft) 1_000

transfer_moves_balance_and_logs : Verdict Panic
transfer_moves_balance_and_logs = do
  let ft = new owner 1_000
  ft ← call (transfer (ctx owner) alice 300 ft)
  assert_eq (balance_of owner ft) 700
  assert_eq (balance_of alice ft) 300
  let log = get_transfer_log ft
  assert_eq (length log) 1
  entry ← or_panic (first log) asserted
  assert_eq entry.0 owner
  assert_eq entry.1 alice
  assert_eq entry.2 300

transfer_log_records_order : Verdict Panic
transfer_log_records_order = do
  let ft = new owner 1_000
  ft ← call (transfer (ctx owner) alice 100 ft)
  ft ← call (transfer (ctx owner) bob 200 ft)
  ft ← call (transfer (ctx owner) alice 50 ft)
  let log = get_transfer_log ft
  let amounts : List ℕ = map (λ (t : AccountId × AccountId × ℕ). t.2) log
  assert_eq amounts (100 ∷ 200 ∷ 50 ∷ [])
  assert_eq (balance_of alice ft) 150
  assert_eq (balance_of bob ft) 200
  assert_eq (balance_of owner ft) 650

transfer_rejects_overdraw : Verdict Panic
transfer_rejects_overdraw = do
  let ft = new owner 100
  ft ← call (transfer (ctx alice) bob 50 ft)
  ok tt

transfer_rejects_zero_amount : Verdict Panic
transfer_rejects_zero_amount = do
  let ft = new owner 100
  ft ← call (transfer (ctx owner) alice 0 ft)
  ok tt

transfer_rejects_self : Verdict Panic
transfer_rejects_self = do
  let ft = new owner 100
  ft ← call (transfer (ctx owner) owner 10 ft)
  ok tt

init_mints_all_supply_to_owner_lem : init_mints_all_supply_to_owner ≡ ok tt
unfolding init_mints_all_supply_to_owner new insert lookup balance balance_of total_supply text_eq
init_mints_all_supply_to_owner_lem = refl

transfer_moves_balance_and_logs_lem : transfer_moves_balance_and_logs ≡ ok tt
unfolding transfer_moves_balance_and_logs new transfer insert lookup remove balance balance_of
    get_transfer_log text_eq
transfer_moves_balance_and_logs_lem = refl

transfer_log_records_order_lem : transfer_log_records_order ≡ ok tt
unfolding transfer_log_records_order new transfer insert lookup remove balance balance_of
    get_transfer_log text_eq
transfer_log_records_order_lem = refl

transfer_rejects_overdraw_lem : transfer_rejects_overdraw ≡ err (panicked insufficient_balance)
unfolding transfer_rejects_overdraw new transfer insert lookup balance text_eq
transfer_rejects_overdraw_lem = refl

transfer_rejects_zero_amount_lem : transfer_rejects_zero_amount ≡ err (panicked zero_amount)
unfolding transfer_rejects_zero_amount new transfer
transfer_rejects_zero_amount_lem = refl

transfer_rejects_self_lem : transfer_rejects_self ≡ err (panicked self_transfer)
unfolding transfer_rejects_self new transfer text_eq
transfer_rejects_self_lem = refl
