-- ===== src/Gate/System/Backed.antt =====
-- What each resume path of the gate (contracts/gate/src/lib.rs) keeps of the approvals, the numbers of
-- the links, and the one link of a batch.
use sequential_near.Prelude.{
  ℕ, ◌≤◌, ◌≡◌, refl, Bool, true, false, List, [], ◌∷◌, ◌++◌, arith, All, All-middle, All-map,
  All-Holds, Holds, Holds-append_left, Holds-append_right, inl, inr, if◌then◌else◌,
}
use mathlib.Core.Path.{subst}
use sequential_near.Gate.Chain.Steps.{single_signal, chain_signal}
use sequential_near.Gate.System.{System}
use sequential_near.Gate.System.Single.{batch-IsSingle, link-IsSingle}
use sequential_near.Gate.System.Changes.{alone, begins, follows, IsNamed, IsBacked}

IsNamed-grow :
    (xs ys ids : List ℕ) → ((i : ℕ) → Holds i xs → Holds i ys) → IsNamed xs ids → IsNamed ys ids
IsNamed-grow xs ys ids grow h = All-map (λ i. Holds i xs) (λ i. Holds i ys) ids grow h

-- The approver decides on one intent.
pub resume-IsBacked :
    (s : System) (id : ℕ) (approve : Bool)
    → IsBacked s id
        (single_signal approve)
        s.gate.batch_chain_tail
        ((if approve then id ∷ [] else []) ++ s.approvals)
        s.links
resume-IsBacked s id approve = record {
  way = alone refl refl refl;
  grows = grow;
  named = λ h. (single approve, IsNamed-grow _ _ s.gate.batch_chain_tail grow h);
  numbers = λ n h. (h, tt);
  single = λ bytes h. record {
    one = omega (arith, h.one);
    due = h.due;
    named = ((λ id named. cc named), h.named);
  };
}
  where
    grow :
        (i : ℕ) → Holds i s.approvals → Holds i ((if approve then id ∷ [] else []) ++ s.approvals)
    grow i h = Holds-append_right i (if approve then id ∷ [] else []) s.approvals h

    single :
        (approve : Bool)
        → approve ≡ true
        → Holds id ((if approve then id ∷ [] else []) ++ s.approvals)
    single true h = inl refl
    single false h = cc

-- The approver starts a batch.
pub batch-IsBacked :
    (s : System) (id : ℕ) (ids : List ℕ)
    → s.gate.batch_chain_tail ≡ []
    → IsBacked s id (chain_signal 0 ids) ids ((id ∷ ids) ++ s.approvals) s.links
batch-IsBacked s id ids idle = record {
  way = begins idle;
  grows = λ i h. Holds-append_right i (id ∷ ids) s.approvals h;
  named = λ h. (
    (λ sure. inl refl),
    All-map (λ i. Holds i ids) (λ i. Holds i (id ∷ (ids ++ s.approvals))) ids
        (λ i h. inr (Holds-append_left i ids s.approvals h)) (All-Holds ids),
  );
  numbers = λ n h. (h, omega arith);
  single =
      λ bytes h. batch-IsSingle s.links s.callbacks s.gate.batch_chain_tail id ids bytes idle h;
}

-- The front of the tail is next.
pub link-IsBacked :
    (s : System) (front back : List (ℕ × ℕ)) (id seq : ℕ) (rest : List ℕ)
    → s.links ≡ front ++ (id, seq) ∷ back
    → s.gate.batch_chain_tail ≡ id ∷ rest
    → IsBacked s id (chain_signal seq rest) rest s.approvals (front ++ back)
link-IsBacked s front back id seq rest split tail = record {
  way = follows front back seq split tail refl;
  grows = λ i h. h;
  named = λ h. let (here, later) = subst (IsNamed s.approvals) tail h in ((λ sure. here), later);
  numbers = λ n h.
      let (here, others) = All-middle (λ (l : ℕ × ℕ). l.1 ≤ n) front back (subst (All _) split h) in
      (others, here);
  single = λ bytes h.
      link-IsSingle s.links front back s.callbacks s.gate.batch_chain_tail id seq rest bytes split
        h;
}
