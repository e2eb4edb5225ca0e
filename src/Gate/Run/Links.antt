-- ===== src/Gate/Run/Links.antt =====
-- One link of a batch (contracts/gate/src/lib.rs): the callback of an intent and, behind the call that
-- it makes, the resume of the next.
use sequential_near.Prelude.{
  ℕ, ◌+◌, ◌<◌, ◌≡◌, ap, true, Option, some, List, [], ◌∷◌, Result, ok, nat_key, of_ok_eq,
}
use sequential_near.Prelude.Map.{lookup, remove}
use sequential_near.Prelude.Word.{u32_mod, u64_mod}
use sequential_near.Host.{Bytes, YieldId, Call}
use sequential_near.Gate.Types.{PendingIntent, ResumeSignal, CallbackArgs, Json, JsonLaws}
use sequential_near.Gate.State.{Gate, Promise}
use sequential_near.Gate.Chain.Steps.{chain_signal}
use sequential_near.Gate.Chain.Links.{link_of}
use sequential_near.Gate.Callback.{PromiseError}
use sequential_near.Gate.Callback.Outcomes.{
  dispatch_of, callback_done, on_intent_resumed_lem, successor,
}
use sequential_near.Gate.Run.{lifted, deliver, follow, run_link}

-- The arguments that the callback of a stored intent is given.
abbrev pub args_of : ℕ → PendingIntent → CallbackArgs
args_of id p = record {
  intent_id = id;
  receiver = p.receiver_id;
  method = p.method;
  args = p.args;
  deposit = p.deposit;
  gas = p.gas;
}

module _ (j : Json) (c : Call) (held : YieldId → Option Bytes) (intents : ℕ → PendingIntent) where
  -- The intent waits in the gate, its yield is alive, and the runtime holds what `submit_intent` packed.
  pub record IsWaiting (g : Gate) (id : ℕ) : Type 0 where
    pub stored : lookup id g.pending ≡ some (intents id)
    pub alive : c.resumable (intents id).yield_id ≡ true
    pub packed :
        (bytes : Bytes) × (held (intents id).yield_id ≡ some bytes)
        × (j.args_to_vec (args_of id (intents id)) ≡ some bytes)

  -- The calls that the signers of the intents asked for.
  abbrev pub call_of : ℕ → Promise
  call_of id = dispatch_of (args_of id (intents id))

  abbrev pub callback_gate : ℕ → Gate → Gate
  callback_gate id g = record g {
    pending = remove id g.pending;
    intents_dispatched = g.intents_dispatched + 1;
  }

  -- The state behind the links of a batch.
  abbrev pub linked_gate : ℕ → List ℕ → Gate → Gate
  linked_gate id rest g = record g { pending = remove id g.pending; batch_chain_tail = rest }

module _ (j : Json) (c : Call) (held : YieldId → Option Bytes) (intents : ℕ → PendingIntent)
    (laws : JsonLaws j) (own : c.predecessor ≡ c.current_account) where
  small_seq :
      (seq : ℕ) (rest : List ℕ)
      → seq + 1 < u32_mod
      → (s : ResumeSignal)
      → ◌≡◌ {A = Result PromiseError ResumeSignal} (ok (chain_signal seq rest)) (ok s)
      → successor s.sequence_number < u32_mod
  small_seq seq rest small s e =
      of_ok_eq (λ (x : ResumeSignal). successor x.sequence_number < u32_mod) e small

  deliver_lem :
      (id seq : ℕ) (rest : List ℕ) (payload : Bytes) (g g₀ : Gate)
      → IsWaiting j c held intents g₀ id
      → j.signal_to_vec (chain_signal seq rest) ≡ some payload
      → g.intents_rejected + 1 < u64_mod
      → g.intents_dispatched + 1 < u64_mod
      → seq + 1 < u32_mod
      → deliver j c held ((intents id).yield_id, payload) g
        ≡ ok (callback_done c (args_of id (intents id)) (ok (chain_signal seq rest)) g)
  unfolding deliver
  deliver_lem id seq rest payload g g₀ w packed rejected dispatched small =
      let (bytes, is_held, to_vec) = w.packed in
      let a = args_of id (intents id) in
      let s = chain_signal seq rest in
      rw is_held (
        rw (laws.args_law _ bytes to_vec) (
          rw (laws.signal_law s payload packed) (
            ap lifted (
              on_intent_resumed_lem c a (ok s) g own rejected dispatched
                (small_seq seq rest small)))))

  -- One link: the callback of `id`, and behind it `continue_chain` where the batch goes on.
  pub run_link_last :
      (id seq : ℕ) (payload : Bytes) (g g₀ : Gate)
      → IsWaiting j c held intents g₀ id
      → j.signal_to_vec (chain_signal seq []) ≡ some payload
      → g.intents_rejected + 1 < u64_mod
      → g.intents_dispatched + 1 < u64_mod
      → seq + 1 < u32_mod
      → run_link j c held ((intents id).yield_id, payload) g
        ≡ ok (callback_gate j c held intents id g, call_of j c held intents id ∷ [], [])
  unfolding run_link follow
  run_link_last id seq payload g g₀ w packed rejected dispatched small =
      rw (deliver_lem id seq [] payload g g₀ w packed rejected dispatched small)

  pub run_link_next :
      (id seq next_id : ℕ) (rest : List ℕ) (payload next_payload : Bytes) (g g₀ : Gate)
      → IsWaiting j c held intents g₀ id
      → j.signal_to_vec (chain_signal seq (next_id ∷ rest)) ≡ some payload
      → g.intents_rejected + 1 < u64_mod
      → g.intents_dispatched + 1 < u64_mod
      → seq + 1 < u32_mod
      → g.batch_chain_tail ≡ next_id ∷ rest
      → IsWaiting j c held intents (callback_gate j c held intents id g) next_id
      → j.signal_to_vec (chain_signal (seq + 1) rest) ≡ some next_payload
      → run_link j c held ((intents id).yield_id, payload) g
        ≡ ok (
          linked_gate j c held intents next_id rest (callback_gate j c held intents id g),
          call_of j c held intents id ∷ [],
          ((intents next_id).yield_id, next_payload) ∷ [],
        )
  unfolding run_link follow
  run_link_next id seq next_id rest payload next_payload g g₀ w packed rejected dispatched small
        front w' packed' =
      let link =
        link_of j c next_id (seq + 1) (callback_gate j c held intents id g) rest (intents next_id)
          next_payload
          (record {
            private = own;
            front = front;
            resumable = record { found = w'.stored; packed = packed'; alive = w'.alive };
          }) in
      rw (deliver_lem id seq (next_id ∷ rest) payload g g₀ w packed rejected dispatched small)
        (rw link)
