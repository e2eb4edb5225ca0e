-- ===== src/Gate/Trace/Replay.antt =====
-- Replays of a signed delegate to the gate (contracts/gate/src/lib.rs), whatever happens in between.
use sequential_near.Prelude.{ℕ, ◌≡◌, sym, true, false, List, ok, arith, nat_key, text_key, ==_refl}
use sequential_near.Prelude.Map.{Map, contains_key, insert, lookup-insert}
use mathlib.Core.Path.{subst}
use sequential_near.Host.{Bytes, Text, Call}
use sequential_near.Borsh.{Borsh}
use sequential_near.Nep366.{Crypto, SignedDelegateAction, parse_signed}
use sequential_near.Gate.Types.{Json}
use sequential_near.Gate.Nonce.{nonce_key}
use sequential_near.Gate.State.{Gate, Promise, Done}
use sequential_near.Gate.Submit.{submit_intent}
use sequential_near.Gate.Submit.Accepts.{submit_intent_iff}
use sequential_near.Gate.Trace.{Op, attempts}
use sequential_near.Gate.Trace.Effects.{
  Effect, managed, cleared, priced, withdrawn, submitted, resumed, started, linked, resolved,
}
use sequential_near.Gate.Trace.Keep.{attempts_keep}

contains_key-insert :
    (k j : Text) (v : ℕ) (m : Map Text ℕ)
    → contains_key j m ≡ true
    → contains_key j (insert k v m) ≡ true
unfolding contains_key
contains_key-insert k j v m h = ground (arith, lookup-insert k j v m)

pub contains_key-insert_same :
    (k : Text) (v : ℕ) (m : Map Text ℕ) → contains_key k (insert k v m) ≡ true
unfolding contains_key
contains_key-insert_same k v m = ground (arith, lookup-insert k k v m, ==_refl k)

-- A nonce that is used stays used.
pub Effect-keeps_used :
    (key : Text) {c : Call} {op : Op} {g g' : Gate}
    → Effect c op g g'
    → contains_key key g.used_nonces ≡ true
    → contains_key key g'.used_nonces ≡ true
Effect-keeps_used key (managed relayers approver _ e) h = rw e h
Effect-keeps_used key (cleared _ _ e) h = rw e h
Effect-keeps_used key (priced tiers _ ladder e) h = rw e h
Effect-keeps_used key (withdrawn amount _ le e) h = rw e h
Effect-keeps_used key {c} {g = g} (submitted d fc fresh room count e) h =
    rw e (contains_key-insert (nonce_key d.sender_id d.nonce) key c.block_height g.used_nonces h)
Effect-keeps_used key (resumed id fee fits e) h = rw e h
Effect-keeps_used key (started id rest t idle known fits e) h = rw e h
Effect-keeps_used key (linked id rest front known e) h = rw e h
Effect-keeps_used key (resolved id dispatched rejected e) h = rw e h

abbrev replay_key : SignedDelegateAction → Text
replay_key s = nonce_key s.delegate_action.sender_id s.delegate_action.nonce

module _ (b : Borsh) (k : Crypto) (j : Json) (c : Call) (bytes : Bytes) (s : SignedDelegateAction)
    (g : Gate) (d : Done Promise) (h : submit_intent b k j c bytes g ≡ ok d)
    (parsed : parse_signed b bytes ≡ ok s) where
  submit_intent-fresh : contains_key (replay_key s) g.used_nonces ≡ false
  submit_intent-fresh =
      let (t, fc, payload, a, done) = (submit_intent_iff b k j c bytes g d).0 h in
      let same : t ≡ s = cc (parsed, a.parsed) in
      subst (λ x. contains_key (replay_key x) g.used_nonces ≡ false) same a.fresh

  submit_intent-uses : contains_key (replay_key s) d.gate.used_nonces ≡ true
  submit_intent-uses =
      let (t, fc, payload, a, done) = (submit_intent_iff b k j c bytes g d).0 h in
      let same : t ≡ s = cc (parsed, a.parsed) in
      subst (λ x. contains_key (replay_key x) d.gate.used_nonces ≡ true) same
        (subst (λ (x : Done Promise). contains_key (replay_key t) x.gate.used_nonces ≡ true)
          (sym done) (contains_key-insert_same (replay_key t) c.block_height g.used_nonces))

-- Once a delegate was accepted, no delegate with the same sender and nonce is accepted again: whatever
-- calls are made in between, by whom, and whatever else the second delegate holds.
pub submit_intent-once :
    (b : Borsh) (k : Crypto) (j : Json) (c c' : Call) (bytes bytes' : Bytes)
    (s s' : SignedDelegateAction) (g : Gate) (d d' : Done Promise) (ops : List (Call × Op))
    → submit_intent b k j c bytes g ≡ ok d
    → parse_signed b bytes ≡ ok s
    → parse_signed b bytes' ≡ ok s'
    → s.delegate_action.sender_id ≡ s'.delegate_action.sender_id
    → s.delegate_action.nonce ≡ s'.delegate_action.nonce
    → ¬ (submit_intent b k j c' bytes' (attempts b k j ops d.gate) ≡ ok d')
submit_intent-once b k j c c' bytes bytes' s s' g d d' ops first parsed parsed' sender nonce again =
    let used = submit_intent-uses b k j c bytes s g d first parsed in
    let kept =
      attempts_keep b k j (λ x. contains_key (replay_key s) x.used_nonces ≡ true)
        (λ c op g g' e h. Effect-keeps_used (replay_key s) e h) ops d.gate used in
    let unused =
      submit_intent-fresh b k j c' bytes' s' (attempts b k j ops d.gate) d' again parsed' in
    cc (kept, unused, sender, nonce)
