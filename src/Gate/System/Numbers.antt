-- ===== src/Gate/System/Numbers.antt =====
-- No callback of the gate (contracts/gate/src/lib.rs) panics while fewer than 2 ^ 32 intents were
-- submitted: the counters and the numbers of the chains have room.
use sequential_near.Prelude.{
  ℕ, ◌+◌, ◌≤◌, ◌<◌, ◌≡◌, ◌≢◌, Option, some, none, List, [], ◌∷◌, ◌++◌, Result, ok, err, arith, All,
  All-map, All-middle, All-append, total,
}
use mathlib.Core.Path.{subst}
use sequential_near.Prelude.Word.{u32_mod}
use sequential_near.Host.{Bytes, AccountId, Call}
use sequential_near.Borsh.{Borsh}
use sequential_near.Nep366.{Crypto}
use sequential_near.Gate.Types.{ResumeSignal, CallbackArgs, Json, JsonLaws}
use sequential_near.Gate.State.{Gate}
use sequential_near.Gate.Callback.{PromiseError}
use sequential_near.Gate.Callback.Outcomes.{successor, callback_done, on_intent_resumed_lem}
use sequential_near.Gate.Run.{Halt}
use sequential_near.Gate.System.{
  System, Fate, dispatched, rejected, failed, answer, Reach, starts, steps,
}
use sequential_near.Gate.System.Changes.{
  IsAtMost, links_of, Ending, refuses, dispatches, Change, added, managed, fired, timed_out,
  answered, unanswered, unlinked,
}
use sequential_near.Gate.System.Origins.{Step-Change}
use sequential_near.Gate.System.Places.{
  is_dispatched, is_rejected, callbacks-total, Account, moved, entered, Change-Account,
}
use sequential_near.Gate.System.Once.{IsPlaced, Reach-IsPlaced}

-- A signal's number is at most `n`.
abbrev pub IsNumbered : ℕ → Result PromiseError ResumeSignal → Type 0
IsNumbered n signal = (given : ResumeSignal) → signal ≡ ok given → IsAtMost n given.sequence_number

-- The numbers of the chains are at most the count of the dispatched intents, and nothing has failed.
pub record IsNumberedAll (n : ℕ) (s : System) : Type 0 where
  pub links : All (λ (l : ℕ × ℕ). l.1 ≤ n) s.links
  pub callbacks :
      All (λ (r : Bytes × Result PromiseError ResumeSignal). IsNumbered n r.1) s.callbacks
  pub unfailed : All (λ (r : Bytes × Fate). r.1 ≢ failed) s.settled

IsAtMost-grow : (n m : ℕ) (o : Option ℕ) → n ≤ m → IsAtMost n o → IsAtMost m o
IsAtMost-grow n m none le h = tt
IsAtMost-grow n m (some x) le h = omega (arith, le, h)

links_of-numbers :
    (n : ℕ) (seq next : Option ℕ)
    → IsAtMost n seq
    → All (λ (l : ℕ × ℕ). l.1 ≤ n + 1) (links_of seq next)
links_of-numbers n seq none h = tt
links_of-numbers n none (some id) h = (omega arith, tt)
links_of-numbers n (some x) (some id) h = (omega (arith, h), tt)

ended_le :
    (settled : List (Bytes × Fate))
    → total (λ (r : Bytes × Fate). is_dispatched r.1) settled
        + total (λ (r : Bytes × Fate). is_rejected r.1) settled
      ≤ total (λ (r : Bytes × Fate). 1) settled
ended_le [] = omega arith
ended_le ((bytes, dispatched p) ∷ settled) = omega (arith, ended_le settled)
ended_le ((bytes, rejected) ∷ settled) = omega (arith, ended_le settled)
ended_le ((bytes, failed) ∷ settled) = omega (arith, ended_le settled)

module _ (b : Borsh) (k : Crypto) (j : Json) where
  -- A callback that is due leaves room in both counters.
  room :
      (s : System) (front back : List (Bytes × Result PromiseError ResumeSignal)) (bytes : Bytes)
      (signal : Result PromiseError ResumeSignal)
      → IsPlaced b k j s
      → s.callbacks ≡ front ++ (bytes, signal) ∷ back
      → (s.gate.intents_dispatched + s.gate.intents_rejected) + 1 ≤ s.gate.next_intent_id
  room s front back bytes signal v split = omega (
    arith,
    v.dispatched,
    v.rejected,
    v.counted,
    ended_le s.settled,
    callbacks-total (λ bytes. 1) s.callbacks front back bytes signal split,
  )

  IsNumbered-grow :
      (n m : ℕ) (callbacks : List (Bytes × Result PromiseError ResumeSignal))
      → n ≤ m
      → All (λ (r : Bytes × Result PromiseError ResumeSignal). IsNumbered n r.1) callbacks
      → All (λ (r : Bytes × Result PromiseError ResumeSignal). IsNumbered m r.1) callbacks
  IsNumbered-grow n m callbacks le v =
      All-map _ _ callbacks
        (λ r h given is. IsAtMost-grow n m given.sequence_number le (h given is)) v

  successor_room :
      (n : ℕ) (seq : Option ℕ) → IsAtMost n seq → n + 1 < u32_mod → successor seq < u32_mod
  successor_room n none h small = omega arith
  successor_room n (some x) h small = omega (arith, h, small)

  -- The callback goes through.
  pub answer-ok :
      (s : System) (bytes : Bytes) (signal : Result PromiseError ResumeSignal) (c : Call)
      (a : CallbackArgs)
      → j.args_from_slice bytes ≡ some a
      → c.predecessor ≡ c.current_account
      → (s.gate.intents_dispatched + s.gate.intents_rejected) + 1 < u32_mod
      → IsNumbered s.gate.intents_dispatched signal
      → answer j c bytes signal s.gate ≡ ok (callback_done c a signal s.gate)
  answer-ok s bytes signal c a reads own small numbered =
      let went =
        on_intent_resumed_lem c a signal s.gate own (omega (arith, small)) (omega (arith, small))
          (λ given is.
            successor_room s.gate.intents_dispatched given.sequence_number (numbered given is)
              (omega (arith, small))) in
      rw (answer, reads) (rw went)

  never_fails :
      (s : System) (front back : List (Bytes × Result PromiseError ResumeSignal)) (bytes : Bytes)
      (signal : Result PromiseError ResumeSignal) (c : Call) (h : Halt)
      → IsPlaced b k j s
      → IsNumberedAll s.gate.intents_dispatched s
      → s.gate.next_intent_id < u32_mod
      → s.callbacks ≡ front ++ (bytes, signal) ∷ back
      → c.predecessor ≡ c.current_account
      → answer j c bytes signal s.gate ≢ err h
  never_fails s front back bytes signal c h v u small split own fails =
      let ((a, intent), others) =
        All-middle _ front back (subst (All _) split v.all_signed.callbacks) in
      let (numbered, rest) = All-middle _ front back (subst (All _) split u.callbacks) in
      let left = room s front back bytes signal v split in
      cc
        (answer-ok s bytes signal c a intent.reads own (omega (arith, left, small)) numbered, fails)

  Ending-numbers :
      {a : CallbackArgs} {signal : Result PromiseError ResumeSignal} {g g' : Gate} {fate : Fate}
      {links : List (ℕ × ℕ)}
      → Ending a signal g g' fate links
      → IsNumbered g.intents_dispatched signal
      → All (λ (l : ℕ × ℕ). l.1 ≤ g'.intents_dispatched) links
        × (g.intents_dispatched ≤ g'.intents_dispatched)
        × (fate ≢ failed)
  Ending-numbers (refuses _ f l e) numbered = rw (l, e) (tt, omega arith, λ fails. cc (f, fails))
  Ending-numbers {g = g} (dispatches given is sure f l e) numbered =
      rw (l, e)
        (
          links_of-numbers g.intents_dispatched given.sequence_number given.next_intent_id
              (numbered given is),
          omega arith,
          λ fails. cc (f, fails),
        )

  Change-IsNumberedAll :
      {s t : System}
      → Change b k j (Unit {0}) s t
      → IsPlaced b k j s
      → s.gate.next_intent_id < u32_mod
      → IsNumberedAll s.gate.intents_dispatched s
      → IsNumberedAll t.gate.intents_dispatched t
  Change-IsNumberedAll (added s c signed fc bytes verified single packed fresh) v small u = record {
    links = u.links;
    callbacks = u.callbacks;
    unfailed = u.unfailed;
  }
  Change-IsNumberedAll (managed s g is) v small u =
      rw is.dispatched (record { links = u.links; callbacks = u.callbacks; unfailed = u.unfailed })
  Change-IsNumberedAll (fired s id p signal bytes rest g links approvals found taken is backed) v
        small u =
      let (fewer, most) = backed.numbers s.gate.intents_dispatched u.links in
      rw is.dispatched (record {
        links = fewer;
        callbacks = (
          (λ given is_ok.
              let same : signal ≡ given = cc is_ok in
              subst (λ (x : ResumeSignal). IsAtMost s.gate.intents_dispatched x.sequence_number)
                same most),
          u.callbacks,
        );
        unfailed = u.unfailed;
      })
  Change-IsNumberedAll (timed_out s y bytes rest reason taken) v small u = record {
    links = u.links;
    callbacks = ((λ given is. cc is), u.callbacks);
    unfailed = u.unfailed;
  }
  Change-IsNumberedAll (answered s front back bytes signal a g fate links split reads e) v small u =
      let (numbered, rest) = All-middle _ front back (subst (All _) split u.callbacks) in
      let (fresh, more, fine) = Ending-numbers e numbered in
      record {
        links =
            All-append _ links s.links fresh
              (All-map _ _ s.links (λ l h. omega (arith, h, more)) u.links);
        callbacks =
            IsNumbered-grow s.gate.intents_dispatched g.intents_dispatched (front ++ back) more
              rest;
        unfailed = (fine, u.unfailed);
      }
  Change-IsNumberedAll (unanswered s front back bytes signal c h split own fails) v small u =
      absurd (never_fails s front back bytes signal c h v u small split own fails)
  Change-IsNumberedAll (unlinked s front back l split) v small u =
      let (here, others) = All-middle _ front back (subst (All _) split u.links) in
      record { links = others; callbacks = u.callbacks; unfailed = u.unfailed }

  -- While fewer than 2 ^ 32 intents were submitted, no callback has panicked, and the number of every
  -- link is at most the count of the dispatched intents.
  pub Reach-IsNumberedAll :
      (self owner approver : AccountId)
      → JsonLaws j
      → {s : System} → Reach b k j self owner approver s
      → s.gate.next_intent_id < u32_mod
      → IsNumberedAll s.gate.intents_dispatched s
  Reach-IsNumberedAll self owner approver laws starts small = record {
    links = tt;
    callbacks = tt;
    unfailed = tt;
  }
  Reach-IsNumberedAll self owner approver laws (steps r st) small =
      let ch = Step-Change b k j laws self st in
      let before = earlier (Change-Account b k j laws (λ bytes. 1) ch) small in
      Change-IsNumberedAll ch (Reach-IsPlaced b k j self owner approver laws r) before
        (Reach-IsNumberedAll self owner approver laws r before)
    where
      earlier :
          {f : Bytes → ℕ} {s t : System}
          → Account b k j f s t
          → t.gate.next_intent_id < u32_mod
          → s.gate.next_intent_id < u32_mod
      earlier (moved same next submitted) h = omega (arith, next, h)
      earlier (entered bytes a is id_is more next submitted) h = omega (arith, next, h)
