-- ===== src/Gate/Submit/Accepts.antt =====
-- When `submit_intent` (contracts/gate/src/lib.rs) accepts, and what an accepted intent changes.
use sequential_near.Prelude.{
  ◌+◌, ◌<◌, ◌≡◌, ◌↔◌, true, false, some, [], ◌∷◌, ok, err, Result, arith, require-eq-ok, >>=-eq-ok,
  ltb→lt, lt→ltb, Option-cases, not-eq-true, sym, ap, ◌∙◌, inl, inr, text_key, nat_key,
}
use sequential_near.Prelude.Map.{contains_key, insert}
use sequential_near.Prelude.Word.{u64_mod}
use sequential_near.Host.{Bytes, Call}
use sequential_near.Borsh.{Borsh}
use sequential_near.Nep366.{
  Crypto, SignedDelegateAction, DelegateAction, FunctionCallAction, function_call, parse_signed,
  verify,
}
use sequential_near.Nep366.Rejects.{require_single_function_call_iff}
use sequential_near.Gate.Types.{PendingIntent, CallbackArgs, Json}
use sequential_near.Gate.State.{
  Gate, Panic, bad_actions, Promise, yielded, Done, intent_submitted, gas_yield_callback,
  nonce_used,
}
use sequential_near.Gate.Nonce.{nonce_key}
use sequential_near.Gate.Submit.{or_panic_with, check_signed, hold_intent, submit_intent}

or_panic_with-eq-ok {ℓ κ} :
    {E : Type κ} {A : Type ℓ} (f : E → Panic) (r : Result E A) {a : A}
    → or_panic_with f r ≡ ok a
    → r ≡ ok a
or_panic_with-eq-ok f (ok a) h = cc
or_panic_with-eq-ok f (err e) h = cc

-- The arguments of the callback, and the stored intent, of a delegate `d` with the call `fc`.
abbrev pub callback_of : Gate → DelegateAction → FunctionCallAction → CallbackArgs
callback_of g d fc = record {
  intent_id = g.next_intent_id;
  receiver = d.receiver_id;
  method = fc.method_name;
  args = fc.args;
  deposit = fc.deposit;
  gas = fc.gas;
}

abbrev pub intent_of : Call → DelegateAction → FunctionCallAction → PendingIntent
intent_of c d fc = record {
  yield_id = c.fresh_yield;
  sender = d.sender_id;
  receiver_id = d.receiver_id;
  method = fc.method_name;
  args = fc.args;
  deposit = fc.deposit;
  gas = fc.gas;
  nonce = d.nonce;
  expires_at_block = d.max_block_height;
  submitted_at_block = c.block_height;
}

-- The state that an accepted intent leaves.
abbrev pub submitted_gate : Call → Gate → DelegateAction → FunctionCallAction → Gate
submitted_gate c g d fc = record g {
  next_intent_id = g.next_intent_id + 1;
  used_nonces = insert (nonce_key d.sender_id d.nonce) c.block_height g.used_nonces;
  intents_submitted = g.intents_submitted + 1;
  pending = insert g.next_intent_id (intent_of c d fc) g.pending;
}

-- What `hold_intent` answers.
abbrev pub held : Call → Gate → DelegateAction → FunctionCallAction → Bytes → Done Promise
held c g d fc payload = record {
  result = yielded c.fresh_yield payload gas_yield_callback 1;
  gate = submitted_gate c g d fc;
  events = intent_submitted g.next_intent_id d.sender_id d.receiver_id fc.method_name d.nonce ∷ [];
  resumed = [];
}

module _ (j : Json) (c : Call) (g : Gate) (d : DelegateAction) (fc : FunctionCallAction) where
  hold_intent-eq-ok :
      (payload : Bytes)
      → g.next_intent_id + 1 < u64_mod
      → g.intents_submitted + 1 < u64_mod
      → j.args_to_vec (callback_of g d fc) ≡ some payload
      → hold_intent j c d fc g ≡ ok (held c g d fc payload)
  unfolding hold_intent
  hold_intent-eq-ok payload id_room count_room packed =
      rw (lt→ltb _ _ id_room) (rw (lt→ltb _ _ count_room) (rw packed))

  hold_intent-ok :
      (done : Done Promise)
      → hold_intent j c d fc g ≡ ok done
      → (payload : Bytes) × (g.next_intent_id + 1 < u64_mod)
        × (g.intents_submitted + 1 < u64_mod)
        × (j.args_to_vec (callback_of g d fc) ≡ some payload)
        × (done ≡ held c g d fc payload)
  unfolding hold_intent
  hold_intent-ok done h = elim (Option-cases (j.args_to_vec (callback_of g d fc))) [
    | inl e ↦ ground arith
    | inr (payload, e) ↦ (payload, ground arith, ground arith, e, ground arith)
  ]

module _ (b : Borsh) (k : Crypto) (c : Call) (g : Gate) (s : SignedDelegateAction)
    (fc : FunctionCallAction) where
  pub check_signed-eq-ok :
      verify b k s ≡ true
      → c.block_height < s.delegate_action.max_block_height
      → contains_key (nonce_key s.delegate_action.sender_id s.delegate_action.nonce) g.used_nonces
        ≡ false
      → s.delegate_action.actions ≡ function_call fc ∷ []
      → check_signed b k c s g ≡ ok fc
  unfolding check_signed
  check_signed-eq-ok verified live fresh single =
      rw (verified, lt→ltb _ _ live, fresh)
        (rw (((require_single_function_call_iff s.delegate_action).0 fc).1 single, or_panic_with))

  check_signed-ok :
      check_signed b k c s g ≡ ok fc
      → (verify b k s ≡ true)
        × (c.block_height < s.delegate_action.max_block_height)
        × (contains_key
              (nonce_key s.delegate_action.sender_id s.delegate_action.nonce)
              g.used_nonces
            ≡ false)
        × (s.delegate_action.actions ≡ function_call fc ∷ [])
  unfolding check_signed
  check_signed-ok h =
      let (verified, h1) = require-eq-ok _ _ _ h in
      let (live, h2) = require-eq-ok _ _ _ h1 in
      let (fresh, h3) = require-eq-ok _ _ _ h2 in
      (
        verified,
        ltb→lt _ _ live,
        not-eq-true _ fresh,
        ((require_single_function_call_iff s.delegate_action).0 fc).0
            (or_panic_with-eq-ok bad_actions _ h3),
      )

module _ (b : Borsh) (k : Crypto) (j : Json) (c : Call) (bytes : Bytes) (g : Gate) where
  -- All that `submit_intent` asks of the call, of the signed delegate, of its one function call, and of
  -- the bytes that the callback's arguments are written to.
  pub record IsAccepted (s : SignedDelegateAction) (fc : FunctionCallAction) (payload : Bytes)
      : Type 0 where
    pub relayer : contains_key c.predecessor g.relayers ≡ true
    pub parsed : parse_signed b bytes ≡ ok s
    pub verified : verify b k s ≡ true
    pub live : c.block_height < s.delegate_action.max_block_height
    pub fresh :
        contains_key (nonce_key s.delegate_action.sender_id s.delegate_action.nonce) g.used_nonces
        ≡ false
    pub single : s.delegate_action.actions ≡ function_call fc ∷ []
    pub id_room : g.next_intent_id + 1 < u64_mod
    pub count_room : g.intents_submitted + 1 < u64_mod
    pub packed : j.args_to_vec (callback_of g s.delegate_action fc) ≡ some payload

  abbrev pub submitted : SignedDelegateAction → FunctionCallAction → Bytes → Done Promise
  submitted s fc payload = held c g s.delegate_action fc payload

  accepts :
      (s : SignedDelegateAction) (fc : FunctionCallAction) (payload : Bytes)
      → IsAccepted s fc payload
      → submit_intent b k j c bytes g ≡ ok (submitted s fc payload)
  unfolding submit_intent
  accepts s fc payload a =
      rw (a.relayer, a.parsed, or_panic_with)
        (rw (check_signed-eq-ok b k c g s fc a.verified a.live a.fresh a.single)
          (hold_intent-eq-ok j c g s.delegate_action fc payload a.id_room a.count_room a.packed))

  accepted :
      (d : Done Promise)
      → submit_intent b k j c bytes g ≡ ok d
      → (s : SignedDelegateAction) × (fc : FunctionCallAction) × (payload : Bytes) × IsAccepted s fc
          payload
        × (d ≡ submitted s fc payload)
  unfolding submit_intent
  accepted d h =
      let (relayer, h1) = require-eq-ok _ _ _ h in
      let (s, p, h2) = >>=-eq-ok (or_panic_with _ (parse_signed b bytes)) _ h1 in
      let (fc, q, h3) = >>=-eq-ok (check_signed b k c s g) _ h2 in
      let (verified, live, fresh, single) = check_signed-ok b k c g s fc q in
      let (payload, id_room, count_room, packed, same) =
        hold_intent-ok j c g s.delegate_action fc d h3 in
      (
        s,
        fc,
        payload,
        record {
          relayer = relayer;
          parsed = or_panic_with-eq-ok _ _ p;
          verified = verified;
          live = live;
          fresh = fresh;
          single = single;
          id_room = id_room;
          count_room = count_room;
          packed = packed;
        },
        same,
      )

  -- `submit_intent` goes through exactly when the caller is a relayer, the bytes parse as a signed
  -- delegate whose signature verifies, the delegate has not expired, its nonce was not used, it holds
  -- one function call, the two counters stay below 2 ^ 64, and the callback's arguments can be
  -- written; the answer is then the yield of those arguments, with the intent stored under the next
  -- id, the nonce recorded and the counters raised.
  pub submit_intent_iff :
      (d : Done Promise)
      → (submit_intent b k j c bytes g ≡ ok d) ↔ (
          (s : SignedDelegateAction) × (fc : FunctionCallAction) × (payload : Bytes) × IsAccepted s
            fc payload
          × (d ≡ submitted s fc payload))
  submit_intent_iff d =
      (accepted d, (λ (s, fc, payload, a, same). accepts s fc payload a ∙ ap ok (sym same)))

-- A delegate whose sender and nonce were used before is refused as a replay by the checks, whatever
-- else it holds, if its signature verifies and it has not expired.
pub check_signed-replay :
    (b : Borsh) (k : Crypto) (c : Call) (g : Gate) (s : SignedDelegateAction)
    → verify b k s ≡ true
    → c.block_height < s.delegate_action.max_block_height
    → contains_key (nonce_key s.delegate_action.sender_id s.delegate_action.nonce) g.used_nonces
      ≡ true
    → check_signed b k c s g ≡ err nonce_used
unfolding check_signed
check_signed-replay b k c g s verified live used = rw (verified, lt→ltb _ _ live, used)
