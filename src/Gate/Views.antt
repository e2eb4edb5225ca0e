-- ===== src/Gate/Views.antt =====
-- The view methods of the gate (contracts/gate/src/lib.rs).
pub mod Listing
use sequential_near.Prelude.{ℕ, Bool, Option, none, some, List, nat_key, text_key}
use sequential_near.Prelude.Map.{contains_key, lookup, keys}
use sequential_near.Host.{AccountId}
use sequential_near.Gate.Types.{PendingIntentView}
use sequential_near.Gate.State.{Gate, Tier}

abbrev pub get_owner : Gate → AccountId
get_owner g = g.owner_id

abbrev pub get_approver : Gate → AccountId
get_approver g = g.approver_id

abbrev pub is_relayer : AccountId → Gate → Bool
is_relayer account_id g = contains_key account_id g.relayers

unfoldable pub get_pending : ℕ → Gate → Option PendingIntentView
get_pending intent_id g = elim (lookup intent_id g.pending) [
  | none ↦ none
  | some p ↦ some (record {
    intent_id = intent_id;
    sender = p.sender;
    receiver_id = p.receiver_id;
    method = p.method;
    nonce = p.nonce;
    expires_at_block = p.expires_at_block;
    submitted_at_block = p.submitted_at_block;
  })
]

-- The order of the keys is that of the model's map; `IterableMap` promises none after a removal.
unfoldable pub list_pending : Gate → List ℕ
list_pending g = keys g.pending

abbrev pub stats : Gate → ℕ × ℕ × ℕ × ℕ × ℕ
stats g = (
  g.intents_submitted, g.intents_dispatched, g.intents_rejected, g.next_intent_id,
  g.active_batch_id,
)

abbrev pub get_batch_tail : Gate → List ℕ
get_batch_tail g = g.batch_chain_tail

abbrev pub get_fee_tiers : Gate → List Tier
get_fee_tiers g = g.fee_tiers

abbrev pub get_fee_stats : Gate → ℕ × ℕ
get_fee_stats g = (g.fees_collected_total, g.fees_withdrawn_total)
