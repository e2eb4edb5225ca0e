-- ===== src/Gate/Chain/Batch.antt =====
-- `resume_batch_chained` (contracts/gate/src/lib.rs): when it starts a batch, and with what.
use sequential_near.Prelude.{
  ℕ, ◌+◌, ◌%◌, ◌^◌, ◌≤◌, ◌<◌, ◌≡◌, ◌↔◌, ◌∙◌, sym, ap, refl, true, List, [], ◌∷◌, ok, arith,
  require-eq-ok, or_panic, >>=-eq-ok, ltb, ltb→lt, lt→ltb, ◌>>=◌, inl, inr, text_eq, text_eq_iff,
  text_key, nat_key, length, All, Bool-cases,
}
use sequential_near.Prelude.Map.{contains_key, remove}
use sequential_near.Prelude.Word.{u64_mod, u128_mod, checked_add}
use sequential_near.Host.{Bytes, YieldId, Call}
use sequential_near.Gate.Types.{PendingIntent, Json}
use sequential_near.Gate.State.{
  Gate, Tier, Done, fee_charged, batch_started, counter_overflow, state_of,
}
use sequential_near.Gate.Fees.{is_empty, charge_fee, fee_for}
use sequential_near.Gate.Fees.Ledger.{charge_fee_iff}
use sequential_near.Gate.Chain.{resume_pending, check_pending, start_batch, resume_batch_chained}
use sequential_near.Gate.Chain.Steps.{
  IsResumable, resume_pending_of, resume_pending-ok, chain_signal,
}

check_pending-ok :
    (ids : List ℕ) (g : Gate)
    → check_pending ids g ≡ ok tt
    → All (λ id. contains_key id g.pending ≡ true) ids
unfolding check_pending
check_pending-ok [] g h = tt
check_pending-ok (id ∷ ids) g h =
    let (here, h1) = require-eq-ok (contains_key id g.pending) _ _ h in
    (here, check_pending-ok ids g h1)

check_pending_of :
    (ids : List ℕ) (g : Gate)
    → All (λ id. contains_key id g.pending ≡ true) ids
    → check_pending ids g ≡ ok tt
unfolding check_pending
check_pending_of [] g h = refl
check_pending_of (id ∷ ids) g h = rw h.0 (check_pending_of ids g h.1)

is_empty-eq-true : (ids : List ℕ) → is_empty ids ≡ true → ids ≡ []
is_empty-eq-true [] h = refl
is_empty-eq-true (id ∷ ids) h = cc

-- The state that an accepted batch leaves.
abbrev pub batch_gate : ℕ → List ℕ → Tier → Gate → Gate
batch_gate first_id rest t g = record g {
  pending = remove first_id g.pending;
  batch_chain_tail = rest;
  active_batch_id = g.active_batch_id + 1;
  fees_collected_total = g.fees_collected_total + t.1;
}

-- All that `resume_batch_chained` asks of the call and of the batch `first_id ∷ rest`.
pub record IsBatch (j : Json) (c : Call) (first_id : ℕ) (rest : List ℕ) (g : Gate) (t : Tier)
    (p : PendingIntent) (payload : Bytes) : Type 0 where
  pub approver : c.predecessor ≡ g.approver_id
  pub idle : g.batch_chain_tail ≡ []
  pub tier : fee_for (length (first_id ∷ rest) % 2 ^ 32) g ≡ ok t
  pub paid : t.1 ≤ c.attached_deposit
  pub fits : g.fees_collected_total + t.1 < u128_mod
  pub known : All (λ id. contains_key id g.pending ≡ true) (first_id ∷ rest)
  pub count_room : g.active_batch_id + 1 < u64_mod
  pub resumable : IsResumable j c first_id (chain_signal 0 rest) g p payload

-- What an accepted batch answers.
abbrev pub batch_done : ℕ → List ℕ → Gate → Tier → PendingIntent → Bytes → Done (Unit {0})
batch_done first_id rest g t p payload = record {
  result = tt;
  gate = batch_gate first_id rest t g;
  events =
      fee_charged (length (first_id ∷ rest) % 2 ^ 32) t.1 t.0
      ∷ batch_started (g.active_batch_id + 1) (length (first_id ∷ rest)) first_id
      ∷ [];
  resumed = (p.yield_id, payload) ∷ [];
}

module _ (j : Json) (c : Call) (first_id : ℕ) (rest : List ℕ) (g : Gate) where
  abbrev numbered : Gate
  numbered = record g { active_batch_id = g.active_batch_id + 1; batch_chain_tail = rest }

  start_batch_of :
      {p : PendingIntent} {payload : Bytes}
      → All (λ id. contains_key id g.pending ≡ true) (first_id ∷ rest)
      → g.active_batch_id + 1 < u64_mod
      → IsResumable j c first_id (chain_signal 0 rest) g p payload
      → start_batch j c first_id rest g
        ≡ ok (record numbered { pending = remove first_id g.pending }, (p.yield_id, payload))
  unfolding start_batch
  start_batch_of known room r = rw (check_pending_of (first_id ∷ rest) g known) (
      rw (lt→ltb _ _ room) (
        resume_pending_of j c first_id (chain_signal 0 rest) numbered
          (record { found = r.found; packed = r.packed; alive = r.alive })))

  start_batch-ok :
      {r : Gate × (YieldId × Bytes)}
      → start_batch j c first_id rest g ≡ ok r
      → All (λ id. contains_key id g.pending ≡ true) (first_id ∷ rest)
        × (g.active_batch_id + 1 < u64_mod)
        × ((p : PendingIntent) × (payload : Bytes) × IsResumable j c first_id
              (chain_signal 0 rest)
              g
              p
              payload
            × (r
                ≡ (record numbered { pending = remove first_id g.pending }, (p.yield_id, payload))))
  unfolding start_batch
  start_batch-ok {r} h =
      let (u, known, h1) = >>=-eq-ok (check_pending (first_id ∷ rest) g) _ h in
      let (fits, h2) = add_room h1 in
      let (p, payload, can, eq) =
        resume_pending-ok j c first_id (chain_signal 0 rest) numbered h2 in
      (
        check_pending-ok (first_id ∷ rest) g known,
        fits,
        (p, payload, record { found = can.found; packed = can.packed; alive = can.alive }, eq),
      )
    where
      add_room :
          (or_panic (checked_add u64_mod g.active_batch_id 1) counter_overflow >>= λ batch_id.
          resume_pending j c first_id
            (chain_signal 0 rest)
            (record g { active_batch_id = batch_id; batch_chain_tail = rest }))
            ≡ ok r
          → (g.active_batch_id + 1 < u64_mod)
            × (resume_pending j c first_id (chain_signal 0 rest) numbered ≡ ok r)
      add_room e = elim (Bool-cases (ltb (g.active_batch_id + 1) u64_mod)) [
        | inl t ↦ (ltb→lt _ _ t, rw t at e)
        | inr t ↦ ground arith
      ]

module _ (j : Json) (c : Call) (first_id : ℕ) (rest : List ℕ) (g : Gate) where
  batch_of :
      (t : Tier) (p : PendingIntent) (payload : Bytes)
      → IsBatch j c first_id rest g t p payload
      → resume_batch_chained j c (first_id ∷ rest) g ≡ ok (batch_done first_id rest g t p payload)
  unfolding resume_batch_chained
  batch_of t p payload a =
      let n = length (first_id ∷ rest) % 2 ^ 32 in
      let charged : Gate = record g { fees_collected_total = g.fees_collected_total + t.1 } in
      let r = a.resumable in
      let fee : charge_fee c n g ≡ ok (charged, fee_charged n t.1 t.0) =
        (charge_fee_iff c n g charged (fee_charged n t.1 t.0)).1
          (t, a.tier, a.paid, a.fits, refl, refl) in
      rw ((text_eq_iff _ _).1 a.approver) (
        rw (ap is_empty a.idle) (
          rw fee (
            rw (
              start_batch_of j c first_id rest charged a.known a.count_room
                (record { found = r.found; packed = r.packed; alive = r.alive })))))

  resume_batch_chained-ok :
      (d : Done (Unit {0}))
      → resume_batch_chained j c (first_id ∷ rest) g ≡ ok d
      → (t : Tier) × (p : PendingIntent) × (payload : Bytes) × IsBatch j c first_id rest g t p
          payload
        × (d ≡ batch_done first_id rest g t p payload)
  unfolding resume_batch_chained
  resume_batch_chained-ok d h =
      let (by, h1) = require-eq-ok (text_eq c.predecessor g.approver_id) _ _ h in
      let (idle, h2) = require-eq-ok (is_empty g.batch_chain_tail) _ _ h1 in
      let n = length (first_id ∷ rest) % 2 ^ 32 in
      let ((g1, e), fee, h3) = >>=-eq-ok (charge_fee c n g) _ h2 in
      let (t, tier, paid, fits, same, ev) = (charge_fee_iff c n g g1 e).0 fee in
      let charged : Gate = record g { fees_collected_total = g.fees_collected_total + t.1 } in
      let h4 = rw same at h3 in
      let ((g2, r), st, h5) = >>=-eq-ok (start_batch j c first_id rest charged) _ h4 in
      let (known, room, (p, payload, can, eq)) = start_batch-ok j c first_id rest charged st in
      (
        t,
        p,
        payload,
        record {
          approver = (text_eq_iff _ _).0 by;
          idle = is_empty-eq-true _ idle;
          tier = tier;
          paid = paid;
          fits = fits;
          known = known;
          count_room = room;
          resumable = record { found = can.found; packed = can.packed; alive = can.alive };
        },
        cc (h5, eq, ev),
      )

-- `resume_batch_chained` starts a batch exactly when the caller is the approver, no batch is in flight,
-- the deposit covers the tier of the batch's size, every id is pending, the counters have room, and the
-- yield of the first intent is alive. It then takes the first intent off the pending ones and resumes
-- its yield as number 0, with the second id as its successor; the ids behind the first become the tail.
pub resume_batch_chained_iff :
    (j : Json) (c : Call) (first_id : ℕ) (rest : List ℕ) (g : Gate) (d : Done (Unit {0}))
    → (resume_batch_chained j c (first_id ∷ rest) g ≡ ok d) ↔ (
        (t : Tier) × (p : PendingIntent) × (payload : Bytes) × IsBatch j c first_id rest g t p
          payload
        × (d ≡ batch_done first_id rest g t p payload))
resume_batch_chained_iff j c first_id rest g d = (
  resume_batch_chained-ok j c first_id rest g d,
  (λ (t, p, payload, a, same). batch_of j c first_id rest g t p payload a ∙ ap ok (sym same)),
)

pub empty_batch_refused :
    (j : Json) (c : Call) (g : Gate) {g' : Gate}
    → state_of (resume_batch_chained j c [] g) ≡ ok g'
    → ⊥
unfolding resume_batch_chained
empty_batch_refused j c g h = ground arith
