-- ===== src/Gate/Chain/Steps.antt =====
-- What each resume path of the gate (contracts/gate/src/lib.rs) asks for, and what it does.
use sequential_near.Prelude.{
  ℕ, ◌+◌, ◌≤◌, ◌<◌, ◌≡◌, ◌↔◌, ◌∙◌, sym, ap, refl, Bool, true, none, some, List, [], ◌∷◌, ok,
  require-eq-ok, or_panic, or_panic-eq-ok, >>=-eq-ok, text_eq, text_eq_iff, text_key, nat_key,
  first,
}
use sequential_near.Prelude.Map.{remove, lookup}
use sequential_near.Prelude.Word.{u128_mod}
use sequential_near.Host.{Bytes, YieldId, Call}
use sequential_near.Gate.Types.{PendingIntent, ResumeSignal, Json}
use sequential_near.Gate.State.{Gate, Tier, Done, fee_charged, intent_resumed}
use sequential_near.Gate.Fees.{charge_fee, fee_for}
use sequential_near.Gate.Fees.Ledger.{charge_fee_iff}
use sequential_near.Gate.Chain.{resume_pending, resume_intent}

-- The intent `p` with this id can be resumed with this payload.
pub record IsResumable (j : Json) (c : Call) (id : ℕ) (signal : ResumeSignal) (g : Gate)
    (p : PendingIntent) (payload : Bytes) : Type 0 where
  pub found : lookup id g.pending ≡ some p
  pub packed : j.signal_to_vec signal ≡ some payload
  pub alive : c.resumable p.yield_id ≡ true

module _ (j : Json) (c : Call) (id : ℕ) (signal : ResumeSignal) (g : Gate) where
  pub resume_pending_of :
      {p : PendingIntent} {payload : Bytes}
      → IsResumable j c id signal g p payload
      → resume_pending j c id signal g
        ≡ ok (record g { pending = remove id g.pending }, (p.yield_id, payload))
  unfolding resume_pending
  resume_pending_of r = rw r.found (rw r.packed (rw r.alive))

  pub resume_pending-ok :
      {r : Gate × (YieldId × Bytes)}
      → resume_pending j c id signal g ≡ ok r
      → (p : PendingIntent) × (payload : Bytes) × IsResumable j c id signal g p payload
        × (r ≡ (record g { pending = remove id g.pending }, (p.yield_id, payload)))
  unfolding resume_pending
  resume_pending-ok h =
      let (p, found, h1) = >>=-eq-ok (or_panic (lookup id g.pending) _) _ h in
      let (payload, packed, h2) = >>=-eq-ok (or_panic (j.signal_to_vec signal) _) _ h1 in
      let (alive, h3) = require-eq-ok _ _ _ h2 in
      (
        p,
        payload,
        record {
          found = or_panic-eq-ok _ _ found;
          packed = or_panic-eq-ok _ _ packed;
          alive = alive;
        },
        cc h3,
      )

-- The signal of `resume_intent`.
abbrev pub single_signal : Bool → ResumeSignal
single_signal approve = record { approve = approve; sequence_number = none; next_intent_id = none }

-- The signal of a link of a chain.
abbrev pub chain_signal : ℕ → List ℕ → ResumeSignal
chain_signal seq after = record {
  approve = true;
  sequence_number = some seq;
  next_intent_id = first after;
}

-- All that `resume_intent` asks of the call and of the intent.
pub record IsResume (j : Json) (c : Call) (id : ℕ) (approve : Bool) (g : Gate) (t : Tier)
    (p : PendingIntent) (payload : Bytes) : Type 0 where
  pub approver : c.predecessor ≡ g.approver_id
  pub tier : fee_for 1 g ≡ ok t
  pub paid : t.1 ≤ c.attached_deposit
  pub fits : g.fees_collected_total + t.1 < u128_mod
  pub resumable : IsResumable j c id (single_signal approve) g p payload

-- What an accepted resume answers.
abbrev pub resume_done : ℕ → Bool → Gate → Tier → PendingIntent → Bytes → Done (Unit {0})
resume_done id approve g t p payload = record {
  result = tt;
  gate = record g {
    pending = remove id g.pending;
    fees_collected_total = g.fees_collected_total + t.1;
  };
  events = fee_charged 1 t.1 t.0 ∷ intent_resumed id approve ∷ [];
  resumed = (p.yield_id, payload) ∷ [];
}

module _ (j : Json) (c : Call) (id : ℕ) (approve : Bool) (g : Gate) where
  resume_of :
      (t : Tier) (p : PendingIntent) (payload : Bytes)
      → IsResume j c id approve g t p payload
      → resume_intent j c id approve g ≡ ok (resume_done id approve g t p payload)
  unfolding resume_intent
  resume_of t p payload a =
      let charged : Gate = record g { fees_collected_total = g.fees_collected_total + t.1 } in
      let r = a.resumable in
      let fee : charge_fee c 1 g ≡ ok (charged, fee_charged 1 t.1 t.0) =
        (charge_fee_iff c 1 g charged (fee_charged 1 t.1 t.0)).1
          (t, a.tier, a.paid, a.fits, refl, refl) in
      rw ((text_eq_iff _ _).1 a.approver) (
        rw fee (
          rw (
            resume_pending_of j c id (single_signal approve) charged
              (record { found = r.found; packed = r.packed; alive = r.alive }))))

  resume_intent-ok :
      (d : Done (Unit {0}))
      → resume_intent j c id approve g ≡ ok d
      → (t : Tier) × (p : PendingIntent) × (payload : Bytes) × IsResume j c id approve g t p payload
        × (d ≡ resume_done id approve g t p payload)
  unfolding resume_intent
  resume_intent-ok d h =
      let (by, h1) = require-eq-ok (text_eq c.predecessor g.approver_id) _ _ h in
      let ((g1, e), fee, h2) = >>=-eq-ok (charge_fee c 1 g) _ h1 in
      let (t, tier, paid, fits, same, ev) = (charge_fee_iff c 1 g g1 e).0 fee in
      let ((g2, r), res, h3) = >>=-eq-ok (resume_pending j c id (single_signal approve) g1) _ h2 in
      let (p, payload, can, eq) = resume_pending-ok j c id (single_signal approve) g1 res in
      (
        t,
        p,
        payload,
        record {
          approver = (text_eq_iff _ _).0 by;
          tier = tier;
          paid = paid;
          fits = fits;
          resumable = record {
            found = ap (λ (x : Gate). lookup id x.pending) (sym same) ∙ can.found;
            packed = can.packed;
            alive = can.alive;
          };
        },
        cc (h3, eq, same, ev),
      )

  -- `resume_intent` goes through exactly when the caller is the approver, the deposit covers the fee of
  -- a batch of one, the total of the fees stays below 2 ^ 128, and the intent is pending with its yield
  -- alive. It then books that fee, for a rejection as for an approval, takes exactly this intent off
  -- the pending ones, and resumes its yield, and no other, with the decision and no place in a chain.
  pub resume_intent_iff :
      (d : Done (Unit {0}))
      → (resume_intent j c id approve g ≡ ok d) ↔ (
          (t : Tier) × (p : PendingIntent) × (payload : Bytes) × IsResume j c id approve g t p
            payload
          × (d ≡ resume_done id approve g t p payload))
  resume_intent_iff d =
      (resume_intent-ok d, (λ (t, p, payload, a, same). resume_of t p payload a ∙ ap ok (sym same)))
