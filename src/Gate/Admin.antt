-- ===== src/Gate/Admin.antt =====
-- The owner's management of the gate (contracts/gate/src/lib.rs), but for the fees.
use sequential_near.Prelude.{[], ◌∷◌, ◌>>◌, length, text_key}
use sequential_near.Prelude.Map.{insert, remove}
use sequential_near.Host.{AccountId, Call}
use sequential_near.Gate.State.{
  Handler, done, assert_owner, relayer_added, relayer_removed, approver_set, batch_tail_reset,
}

-- `Gate::add_relayer`
unfoldable pub add_relayer : Call → AccountId → Handler (Unit {0})
add_relayer c account_id g = do
  assert_owner c g
  done tt (relayer_added account_id ∷ []) (record g { relayers = insert account_id tt g.relayers })

-- `Gate::remove_relayer`
unfoldable pub remove_relayer : Call → AccountId → Handler (Unit {0})
remove_relayer c account_id g = do
  assert_owner c g
  done tt (relayer_removed account_id ∷ []) (record g { relayers = remove account_id g.relayers })

-- `Gate::set_approver`
unfoldable pub set_approver : Call → AccountId → Handler (Unit {0})
set_approver c approver_id g = do
  assert_owner c g
  done tt (approver_set approver_id ∷ []) (record g { approver_id = approver_id })

-- `Gate::reset_batch_tail`
unfoldable pub reset_batch_tail : Call → Handler (Unit {0})
reset_batch_tail c g = do
  assert_owner c g
  let cleared = length g.batch_chain_tail
  done tt (batch_tail_reset cleared ∷ []) (record g { batch_chain_tail = [] })
