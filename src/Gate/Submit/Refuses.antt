-- ===== src/Gate/Submit/Refuses.antt =====
-- Every refusal of `submit_intent` (contracts/gate/src/lib.rs), in the order of its checks.
use sequential_near.Prelude.{
  ℕ, ◌+◌, ◌≤◌, ◌<◌, ◌≡◌, ◌≢◌, ◌↔◌, ◌⊎◌, inl, inr, refl, ◌∙◌, true, false, none, [], ◌∷◌, ok, err,
  ◌>>=◌, arith, length, ltb, lt→ltb, ltb→lt, Bool-cases, Option-cases, Result-cases, text_key,
  nat_key,
}
use mathlib.Core.Path.{subst}
use sequential_near.Prelude.Map.{contains_key}
use sequential_near.Prelude.Word.{u64_mod}
use sequential_near.Host.{Bytes, Call}
use sequential_near.Borsh.{Borsh, IoError}
use sequential_near.Nep366.{
  Crypto, SignedDelegateAction, FunctionCallAction, function_call, parse_signed, verify,
  require_single_function_call, not_one_action, out_of_range,
}
use sequential_near.Nep366.Rejects.{require_single_function_call_iff}
use sequential_near.Gate.Types.{Json}
use sequential_near.Gate.Nonce.{nonce_key}
use sequential_near.Gate.State.{
  Gate, Panic, not_relayer, invalid_delegate, bad_signature, expired, nonce_used, bad_actions,
  counter_overflow, args_serialization,
}
use sequential_near.Gate.Submit.{or_panic_with, check_signed, hold_intent, submit_intent}
use sequential_near.Gate.Submit.Accepts.{
  callback_of, IsAccepted, submitted, submit_intent_iff, check_signed-replay, check_signed-eq-ok,
}

module _ (b : Borsh) (k : Crypto) (j : Json) (c : Call) (bytes : Bytes) (g : Gate) where
  -- The checks that were passed, stage by stage.
  abbrev pub Parsed : SignedDelegateAction → Type 0
  Parsed s = (contains_key c.predecessor g.relayers ≡ true) × (parse_signed b bytes ≡ ok s)

  abbrev pub Live : SignedDelegateAction → Type 0
  Live s = Parsed s × (verify b k s ≡ true) × (c.block_height < s.delegate_action.max_block_height)

  abbrev pub Checked : SignedDelegateAction → FunctionCallAction → Type 0
  Checked s fc =
      Live s
      × (contains_key (nonce_key s.delegate_action.sender_id s.delegate_action.nonce) g.used_nonces
          ≡ false)
      × (s.delegate_action.actions ≡ function_call fc ∷ [])

  -- Why a call is refused with an error: each check fails behind those in front of it.
  pub data Refusal : Panic → Type 0 where
    stranger : contains_key c.predecessor g.relayers ≡ false → Refusal not_relayer
    unparsed :
        (e : IoError)
        → contains_key c.predecessor g.relayers ≡ true
        → parse_signed b bytes ≡ err e
        → Refusal (invalid_delegate e)
    forged : (s : SignedDelegateAction) → Parsed s → verify b k s ≡ false → Refusal bad_signature
    late :
        (s : SignedDelegateAction)
        → Parsed s
        → verify b k s ≡ true
        → s.delegate_action.max_block_height ≤ c.block_height
        → Refusal expired
    replayed :
        (s : SignedDelegateAction)
        → Live s
        → contains_key (nonce_key s.delegate_action.sender_id s.delegate_action.nonce) g.used_nonces
          ≡ true
        → Refusal nonce_used
    unsuitable :
        (s : SignedDelegateAction)
        → Live s
        → contains_key (nonce_key s.delegate_action.sender_id s.delegate_action.nonce) g.used_nonces
          ≡ false
        → length s.delegate_action.actions ≢ 1
        → Refusal (bad_actions not_one_action)
    full :
        (s : SignedDelegateAction) (fc : FunctionCallAction)
        → Checked s fc
        → (u64_mod ≤ g.next_intent_id + 1) ⊎ (u64_mod ≤ g.intents_submitted + 1)
        → Refusal counter_overflow
    unpacked :
        (s : SignedDelegateAction) (fc : FunctionCallAction)
        → Checked s fc
        → g.next_intent_id + 1 < u64_mod
        → g.intents_submitted + 1 < u64_mod
        → j.args_to_vec (callback_of g s.delegate_action fc) ≡ none
        → Refusal args_serialization

  behind_parse :
      (s : SignedDelegateAction)
      → Parsed s
      → submit_intent b k j c bytes g
        ≡ (check_signed b k c s g >>= λ fc. hold_intent j c s.delegate_action fc g)
  unfolding submit_intent
  behind_parse s (relayer, parsed) = rw (relayer, parsed, or_panic_with) refl

  check_err :
      (s : SignedDelegateAction) (e : Panic)
      → Parsed s
      → check_signed b k c s g ≡ err e
      → submit_intent b k j c bytes g ≡ err e
  check_err s e p h = behind_parse s p ∙ rw h

  hold_err :
      (s : SignedDelegateAction) (fc : FunctionCallAction) (e : Panic)
      → Checked s fc
      → hold_intent j c s.delegate_action fc g ≡ err e
      → submit_intent b k j c bytes g ≡ err e
  hold_err s fc e ((p, verified, live), fresh, single) h =
      behind_parse s p ∙ rw (check_signed-eq-ok b k c g s fc verified live fresh single) h

  le→not_ltb : (m n : ℕ) → n ≤ m → ltb m n ≡ false
  le→not_ltb m n h = ground arith

  -- A refusal is what the call answers.
  refuses : (e : Panic) → Refusal e → submit_intent b k j c bytes g ≡ err e
  unfolding submit_intent check_signed hold_intent
  refuses e (stranger h) = rw h
  refuses e (unparsed x relayer h) = rw (relayer, h, or_panic_with)
  refuses e (forged s p h) = check_err s bad_signature p (rw h)
  refuses e (late s p verified h) =
      check_err s expired p
        (rw (verified, le→not_ltb c.block_height s.delegate_action.max_block_height h))
  refuses e (replayed s (p, verified, live) h) =
      check_err s nonce_used p (check_signed-replay b k c g s verified live h)
  refuses e (unsuitable s (p, verified, live) fresh h) =
      check_err s (bad_actions not_one_action) p (
        rw (verified, lt→ltb _ _ live, fresh)
          (rw ((require_single_function_call_iff s.delegate_action).1.1 h, or_panic_with)))
  refuses e (full s fc p (inl h)) = hold_err s fc counter_overflow p (rw (le→not_ltb _ u64_mod h))
  refuses e (full s fc p (inr h)) = hold_err s fc counter_overflow p (ground (arith, h))
  refuses e (unpacked s fc p id_room count_room h) =
      hold_err s fc args_serialization p
        (rw (lt→ltb _ _ id_room) (rw (lt→ltb _ _ count_room) (rw h)))

  abbrev Outcome : Type 0
  Outcome =
      ((s : SignedDelegateAction) × (fc : FunctionCallAction) × (payload : Bytes) × IsAccepted b k j
          c bytes g s fc payload)
      ⊎ ((e : Panic) × Refusal e)

  -- The counters and the callback's arguments, behind the checks.
  holds : (s : SignedDelegateAction) (fc : FunctionCallAction) → Checked s fc → Outcome
  holds s fc p = elim (Bool-cases (ltb (g.next_intent_id + 1) u64_mod)) [
    | inr h ↦ inr (counter_overflow, full s fc p (inl (ground (arith, h))))
    | inl id_room ↦ elim (Bool-cases (ltb (g.intents_submitted + 1) u64_mod)) [
      | inr h ↦ inr (counter_overflow, full s fc p (inr (ground (arith, h))))
      | inl count_room ↦ elim (Option-cases (j.args_to_vec (callback_of g s.delegate_action fc))) [
        | inl h ↦
            inr (args_serialization, unpacked s fc p (ltb→lt _ _ id_room) (ltb→lt _ _ count_room) h)
        | inr (payload, h) ↦ inl (
          s,
          fc,
          payload,
          record {
            relayer = p.0.0.0;
            parsed = p.0.0.1;
            verified = p.0.1;
            live = p.0.2;
            fresh = p.1;
            single = p.2;
            id_room = ltb→lt _ _ id_room;
            count_room = ltb→lt _ _ count_room;
            packed = h;
          },
        )
      ]
    ]
  ]

  -- The nonce and the actions, behind the signature and the expiry.
  nonce_and_actions : (s : SignedDelegateAction) → Live s → Outcome
  nonce_and_actions s p =
      elim (Bool-cases (
        contains_key (nonce_key s.delegate_action.sender_id s.delegate_action.nonce)
          g.used_nonces)) [
            | inl used ↦ inr (nonce_used, replayed s p used)
            | inr fresh ↦ elim (Result-cases (require_single_function_call s.delegate_action)) [
              | inl (fc, h) ↦
                  holds s fc
                    (p, fresh, ((require_single_function_call_iff s.delegate_action).0 fc).0 h)
              | inr (not_one_action, h) ↦ inr (
                bad_actions not_one_action,
                unsuitable s p fresh ((require_single_function_call_iff s.delegate_action).1.0 h),
              )
              | inr (out_of_range, h) ↦
                  absurd ((require_single_function_call_iff s.delegate_action).2 h)
            ]
          ]

  outcome : Outcome
  outcome = elim (Bool-cases (contains_key c.predecessor g.relayers)) [
    | inr h ↦ inr (not_relayer, stranger h)
    | inl relayer ↦ elim (Result-cases (parse_signed b bytes)) [
      | inr (e, h) ↦ inr (invalid_delegate e, unparsed e relayer h)
      | inl (s, parsed) ↦ elim (Bool-cases (verify b k s)) [
        | inr h ↦ inr (bad_signature, forged s (relayer, parsed) h)
        | inl verified ↦ elim (Bool-cases (ltb c.block_height s.delegate_action.max_block_height)) [
          | inr h ↦ inr (expired, late s (relayer, parsed) verified (ground (arith, h)))
          | inl live ↦ nonce_and_actions s ((relayer, parsed), verified, ltb→lt _ _ live)
        ]
      ]
    ]
  ]

  -- `submit_intent` panics with an error exactly when its check is the first that fails, in the order:
  -- the caller is a relayer, the bytes parse, the signature verifies, the delegate has not expired, its
  -- nonce is unused, it holds one action, the counters have room, and the arguments
  -- can be written.
  pub submit_intent-err_iff : (e : Panic) → (submit_intent b k j c bytes g ≡ err e) ↔ Refusal e
  submit_intent-err_iff e = ((λ h. only h outcome), refuses e)
    where
      only : submit_intent b k j c bytes g ≡ err e → Outcome → Refusal e
      only h (inl (s, fc, payload, a)) = absurd (
          cc (
            h,
            (submit_intent_iff b k j c bytes g (submitted b k j c bytes g s fc payload)).1
                (s, fc, payload, a, refl),
          ))
      only h (inr (x, r)) = subst Refusal (cc (h, refuses x r)) r
