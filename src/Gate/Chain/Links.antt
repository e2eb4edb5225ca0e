-- ===== src/Gate/Chain/Links.antt =====
-- `continue_chain` (contracts/gate/src/lib.rs): the next intent of a batch in flight.
use sequential_near.Prelude.{
  ℕ, ◌≡◌, ◌↔◌, ◌∙◌, sym, ap, refl, true, some, List, [], ◌∷◌, ok, arith, require-eq-ok, or_panic,
  or_panic-eq-ok, >>=-eq-ok, text_eq, text_eq_iff, text_key, nat_key, nat_eq, nat_eq_iff, first,
  tail, length,
}
use sequential_near.Prelude.Map.{remove}
use sequential_near.Host.{Bytes, Call}
use sequential_near.Gate.Types.{PendingIntent, Json}
use sequential_near.Gate.State.{Gate, PromiseOrValue, value, Done, chain_continued, assert_private}
use sequential_near.Gate.Chain.{resume_pending, continue_chain}
use sequential_near.Gate.Chain.Steps.{
  IsResumable, resume_pending_of, resume_pending-ok, chain_signal,
}

-- All that `continue_chain` asks of the call, and of the tail `next_id ∷ rest`.
pub record IsLink (j : Json) (c : Call) (next_id next_seq : ℕ) (rest : List ℕ) (g : Gate)
    (p : PendingIntent) (payload : Bytes) : Type 0 where
  pub private : c.predecessor ≡ c.current_account
  pub front : g.batch_chain_tail ≡ next_id ∷ rest
  pub resumable : IsResumable j c next_id (chain_signal next_seq rest) g p payload

-- What a link that goes through answers.
abbrev pub link_done : ℕ → ℕ → List ℕ → Gate → PendingIntent → Bytes → Done PromiseOrValue
link_done next_id next_seq rest g p payload = record {
  result = value;
  gate = record g { pending = remove next_id g.pending; batch_chain_tail = rest };
  events = chain_continued next_id next_seq (length rest) ∷ [];
  resumed = (p.yield_id, payload) ∷ [];
}

front_of :
    (ids : List ℕ) (id : ℕ) {popped : ℕ}
    → first ids ≡ some popped
    → nat_eq popped id ≡ true
    → ids ≡ id ∷ tail ids
front_of [] id h e = cc
front_of (x ∷ xs) id h e = ground arith

module _ (j : Json) (c : Call) (next_id next_seq : ℕ) (g : Gate) where
  pub link_of :
      (rest : List ℕ) (p : PendingIntent) (payload : Bytes)
      → IsLink j c next_id next_seq rest g p payload
      → continue_chain j c next_id next_seq g ≡ ok (link_done next_id next_seq rest g p payload)
  unfolding continue_chain assert_private
  link_of rest p payload a =
      let r = a.resumable in
      let popped : Gate = record g { batch_chain_tail = rest } in
      rw ((text_eq_iff _ _).1 a.private) (
        rw (ap first a.front) (
          rw ((nat_eq_iff next_id next_id).1 refl) (
            rw (ap tail a.front) (
              rw (
                resume_pending_of j c next_id (chain_signal next_seq rest) popped
                  (record { found = r.found; packed = r.packed; alive = r.alive }))))))

  continue_chain-ok :
      (d : Done PromiseOrValue)
      → continue_chain j c next_id next_seq g ≡ ok d
      → (rest : List ℕ) × (p : PendingIntent) × (payload : Bytes) × IsLink j c next_id next_seq rest
          g p payload
        × (d ≡ link_done next_id next_seq rest g p payload)
  unfolding continue_chain assert_private
  continue_chain-ok d h =
      let (by, h1) = require-eq-ok (text_eq c.predecessor c.current_account) _ _ h in
      let (popped, fst, h2) = >>=-eq-ok (or_panic (first g.batch_chain_tail) _) _ h1 in
      let (same, h3) = require-eq-ok (nat_eq popped next_id) _ _ h2 in
      let after = tail g.batch_chain_tail in
      let ((g1, r), res, h4) =
        >>=-eq-ok
          (resume_pending j c next_id (chain_signal next_seq after)
            (record g { batch_chain_tail = after }))
          _ h3 in
      let (p, payload, can, eq) =
        resume_pending-ok j c next_id (chain_signal next_seq after) _ res in
      (
        after,
        p,
        payload,
        record {
          private = (text_eq_iff _ _).0 by;
          front = front_of g.batch_chain_tail next_id (or_panic-eq-ok _ _ fst) same;
          resumable = record { found = can.found; packed = can.packed; alive = can.alive };
        },
        cc (h4, eq),
      )

  -- A link goes through exactly when the gate itself calls, its id is the front of the tail, and that
  -- intent is pending with its yield alive. It then pops the front, takes the intent off the pending
  -- ones, and resumes its yield with the given number and the new front as its successor.
  pub continue_chain_iff :
      (d : Done PromiseOrValue)
      → (continue_chain j c next_id next_seq g ≡ ok d) ↔ (
          (rest : List ℕ) × (p : PendingIntent) × (payload : Bytes) × IsLink j c next_id next_seq
            rest g p payload
          × (d ≡ link_done next_id next_seq rest g p payload))
  continue_chain_iff d = (
    continue_chain-ok d,
    (λ (rest, p, payload, a, same). link_of rest p payload a ∙ ap ok (sym same)),
  )
