-- ===== src/Gate/System/Single.antt =====
-- What each resume path of the gate (contracts/gate/src/lib.rs) does to the one link of a batch that is
-- under way.
use sequential_near.Prelude.{
  ℕ, ◌+◌, ◌≤◌, ◌≡◌, ◌∙◌, sym, ap, refl, Option, none, some, List, [], ◌∷◌, ◌++◌, Result, ok, err,
  arith, All, All-middle, total, length, length-append, first, All-append, total-middle, tail,
  text_key, nat_key,
}
use mathlib.Core.Path.{subst}
use sequential_near.Host.{Bytes}
use sequential_near.Gate.Types.{ResumeSignal, CallbackArgs}
use sequential_near.Gate.Callback.{PromiseError}
use sequential_near.Gate.Chain.Steps.{chain_signal}
use sequential_near.Gate.System.Changes.{
  next_of, has_next, IsSingle, links_of, Ending, refuses, dispatches,
}
use sequential_near.Gate.State.{Gate}
use sequential_near.Gate.System.{Fate}

has_next_le : (o : Option ℕ) → has_next o ≤ 1
has_next_le none = omega arith
has_next_le (some id) = omega arith

-- Callbacks without a successor name nothing.
pub unnamed :
    (Q : Bytes × Result PromiseError ResumeSignal → ℕ → Type 0)
    (callbacks : List (Bytes × Result PromiseError ResumeSignal))
    → total (λ (r : Bytes × Result PromiseError ResumeSignal). has_next (next_of r.1)) callbacks ≡ 0
    → All
        (λ (r : Bytes × Result PromiseError ResumeSignal).
          (id : ℕ) → next_of r.1 ≡ some id → Q r id)
        callbacks
unnamed Q [] h = tt
unnamed Q ((bytes, signal) ∷ rest) h = (
  (λ id named.
      let one : has_next (next_of signal) ≡ 1 = ap has_next named in
      absurd (omega (arith, h, one))),
  unnamed Q rest (omega (arith, h)),
)

-- Without a tail no successor is named.
pub no_successor :
    (callbacks : List (Bytes × Result PromiseError ResumeSignal))
    → All
        (λ (r : Bytes × Result PromiseError ResumeSignal).
          (id : ℕ) → next_of r.1 ≡ some id → ◌≡◌ {A = Option ℕ} none (some id))
        callbacks
    → total (λ (r : Bytes × Result PromiseError ResumeSignal). has_next (next_of r.1)) callbacks ≡ 0
no_successor [] h = refl
no_successor ((bytes, signal) ∷ rest) h =
    omega (arith, by_next (next_of signal) h.0, no_successor rest h.1)
  where
    by_next :
        (o : Option ℕ)
        → ((id : ℕ) → o ≡ some id → ◌≡◌ {A = Option ℕ} none (some id))
        → has_next o ≡ 0
    by_next none h = refl
    by_next (some id) h = let never = h id refl in cc never

pub no_links :
    (links : List (ℕ × ℕ))
    → All (λ (l : ℕ × ℕ). ◌≡◌ {A = Option ℕ} none (some l.0)) links
    → links ≡ []
no_links [] h = refl
no_links (l ∷ links) h = let never = h.0 in cc never

pub batch-IsSingle :
    (links : List (ℕ × ℕ)) (callbacks : List (Bytes × Result PromiseError ResumeSignal))
    (tail : List ℕ) (id : ℕ) (ids : List ℕ) (bytes : Bytes)
    → tail ≡ []
    → IsSingle links callbacks tail
    → IsSingle links ((bytes, ok (chain_signal 0 ids)) ∷ callbacks) ids
batch-IsSingle links callbacks tail id ids bytes idle h =
    let h' = subst (IsSingle links callbacks) idle h in
    let none_due = no_links links h'.due in
    let none_named = no_successor callbacks h'.named in
    record {
      one = omega (arith, ap length none_due, none_named, has_next_le (first ids));
      due = subst (All (λ (l : ℕ × ℕ). first ids ≡ some l.0)) (sym none_due) tt;
      named = ((λ i named. named), unnamed (λ r id. first ids ≡ some id) callbacks none_named);
    }

-- A link that is due is all that is under way.
pub only_link :
    (links front back : List (ℕ × ℕ)) (l : ℕ × ℕ)
    (callbacks : List (Bytes × Result PromiseError ResumeSignal)) (tail : List ℕ)
    → links ≡ front ++ l ∷ back
    → IsSingle links callbacks tail
    → (front ++ back ≡ [])
      × (total (λ (r : Bytes × Result PromiseError ResumeSignal). has_next (next_of r.1)) callbacks
          ≡ 0)
only_link links front back l callbacks tail split h =
    let len : length links ≡ length (front ++ back) + 1 =
      ap length split ∙ omega (arith, length-append front (l ∷ back), length-append front back) in
    (empty_of (front ++ back) (omega (arith, h.one, len)), omega (arith, h.one, len))
  where
    empty_of : (links : List (ℕ × ℕ)) → length links ≡ 0 → links ≡ []
    empty_of [] e = refl
    empty_of (l ∷ links) e = absurd (omega (arith, e))

pub link-IsSingle :
    (links front back : List (ℕ × ℕ)) (callbacks : List (Bytes × Result PromiseError ResumeSignal))
    (tail : List ℕ) (id seq : ℕ) (rest : List ℕ) (bytes : Bytes)
    → links ≡ front ++ (id, seq) ∷ back
    → IsSingle links callbacks tail
    → IsSingle (front ++ back) ((bytes, ok (chain_signal seq rest)) ∷ callbacks) rest
link-IsSingle links front back callbacks tail id seq rest bytes split h =
    let (others, none_named) = only_link links front back (id, seq) callbacks tail split h in
    record {
      one = omega (arith, ap length others, none_named, has_next_le (first rest));
      due = subst (All (λ (l : ℕ × ℕ). first rest ≡ some l.0)) (sym others) tt;
      named = ((λ i named. named), unnamed (λ r id. first rest ≡ some id) callbacks none_named);
    }

-- The link behind a call names the successor.
links_of_fits :
    (seq next front : Option ℕ)
    → ((id : ℕ) → next ≡ some id → front ≡ some id)
    → (length (links_of seq next) ≤ has_next next)
      × All (λ (l : ℕ × ℕ). front ≡ some l.0) (links_of seq next)
links_of_fits seq none front named = (omega arith, tt)
links_of_fits seq (some id) front named = (omega arith, (named id refl, tt))

-- The callback that goes leaves its place to at most one link, for the successor that it names.
pub Ending-links :
    {a : CallbackArgs} {signal : Result PromiseError ResumeSignal} {g g' : Gate} {fate : Fate}
    {links : List (ℕ × ℕ)} (front : Option ℕ)
    → Ending a signal g g' fate links
    → ((id : ℕ) → next_of signal ≡ some id → front ≡ some id)
    → (length links ≤ has_next (next_of signal)) × All (λ (l : ℕ × ℕ). front ≡ some l.0) links
Ending-links front (refuses _ f l e) named = rw l (omega arith, tt)
Ending-links front (dispatches given is sure f l e) named =
    let fits =
      links_of_fits given.sequence_number given.next_intent_id front
        (λ id names. named id (ap next_of is ∙ names)) in
    (
      omega (arith, ap length l, fits.0, ap (λ x. has_next (next_of x)) is),
      subst (All (λ (l : ℕ × ℕ). front ≡ some l.0)) (sym l) fits.1,
    )

pub Ending-tail :
    {a : CallbackArgs} {signal : Result PromiseError ResumeSignal} {g g' : Gate} {fate : Fate}
    {links : List (ℕ × ℕ)}
    → Ending a signal g g' fate links
    → g'.batch_chain_tail ≡ g.batch_chain_tail
Ending-tail (refuses _ _ _ e) = cc e
Ending-tail (dispatches _ _ _ _ _ e) = cc e

-- The front of the tail is named once.
pub answered-IsSingle :
    (callbacks front back : List (Bytes × Result PromiseError ResumeSignal)) (bytes : Bytes)
    (signal : Result PromiseError ResumeSignal) (links more : List (ℕ × ℕ)) (tail : List ℕ)
    → callbacks ≡ front ++ (bytes, signal) ∷ back
    → IsSingle links callbacks tail
    → length more ≤ has_next (next_of signal)
    → All (λ (l : ℕ × ℕ). first tail ≡ some l.0) more
    → IsSingle (more ++ links) (front ++ back) tail
answered-IsSingle callbacks front back bytes signal links more tail split h few fit =
    let f = λ (r : Bytes × Result PromiseError ResumeSignal). has_next (next_of r.1) in
    let sum : total f callbacks ≡ has_next (next_of signal) + total f (front ++ back) =
      ap (total f) split ∙ total-middle f front back (bytes, signal) in
    record {
      one = omega (arith, h.one, sum, few, length-append more links);
      due = All-append _ more links fit h.due;
      named = (All-middle _ front back (subst (All _) split h.named)).1;
    }

-- A callback with no successor comes in.
pub quiet-IsSingle :
    (links : List (ℕ × ℕ)) (callbacks : List (Bytes × Result PromiseError ResumeSignal))
    (tail : List ℕ) (bytes : Bytes) (reason : PromiseError)
    → IsSingle links callbacks tail
    → IsSingle links ((bytes, err reason) ∷ callbacks) tail
quiet-IsSingle links callbacks tail bytes reason h = record {
  one = omega (arith, h.one);
  due = h.due;
  named = ((λ id names. cc names), h.named);
}

-- A link that is due goes.
pub unlinked-IsSingle :
    (links front back : List (ℕ × ℕ)) (l : ℕ × ℕ)
    (callbacks : List (Bytes × Result PromiseError ResumeSignal)) (tail : List ℕ)
    → links ≡ front ++ l ∷ back
    → IsSingle links callbacks tail
    → IsSingle (front ++ back) callbacks tail
unlinked-IsSingle links front back l callbacks tail split h = record {
  one =
      omega
        (arith, h.one, ap length split, length-append front (l ∷ back), length-append front back);
  due = (All-middle _ front back (subst (All _) split h.due)).1;
  named = h.named;
}
