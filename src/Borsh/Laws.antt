-- ===== src/Borsh/Laws.antt =====
-- Reading and writing a field at a time, by the laws of the codec.
use sequential_near.Prelude.{
  ℕ, zero, suc, ◌≡◌, refl, [], ◌∷◌, ◌++◌, All, length, Result, ok, ◌>>=◌, arith, >>=-eq-ok, inl,
  inr, Result-cases, ◌∙◌, sym, append-nil, append_assoc,
}
use mathlib.Core.Path.{subst}
use sequential_near.Host.{Bytes}
use sequential_near.Borsh.{IsByte, IoError, Codec, read_exact, Lawful, Borsh, BorshLaws}

All-rest : (xs ys : Bytes) → All IsByte (xs ++ ys) → All IsByte ys
All-rest [] ys h = h
All-rest (x ∷ xs) ys h = All-rest xs ys h.1

-- A field that was read: its value, the input behind it, and what the rest of the reader did.
pub field_read :
    {A B : Type 0} {P : A → Type 0} {c : Codec A} {r : B × Bytes}
    → Lawful P c
    → (f : A × Bytes → Result IoError (B × Bytes)) (bs : Bytes) → All IsByte bs
    → (c.read bs >>= f) ≡ ok r
    → (a : A) × (bs' : Bytes) × P a × (bs ≡ c.write a ++ bs') × All IsByte bs' × (f (a, bs') ≡ ok r)
field_read {c} l f bs s h =
    let ((a, bs'), e, k) = >>=-eq-ok (c.read bs) f h in
    let (p, w) = l.write_read bs a bs' s e in
    (a, bs', p, w, All-rest (c.write a) bs' (rw w at s), k)

pub All-front : (xs ys : Bytes) → All IsByte (xs ++ ys) → All IsByte xs
All-front [] ys h = tt
All-front (x ∷ xs) ys h = (h.0, All-front xs ys h.1)

pub read_exact-append : (xs rest : Bytes) → read_exact (length xs) (xs ++ rest) ≡ ok (xs, rest)
unfolding read_exact
read_exact-append [] rest = refl
read_exact-append (x ∷ xs) rest = rw (read_exact-append xs rest)

-- `read_exact` takes that many bytes off the input.
pub read_exact-ok :
    (n : ℕ) (bs xs rest : Bytes)
    → read_exact n bs ≡ ok (xs, rest)
    → (length xs ≡ n) × (bs ≡ xs ++ rest)
unfolding read_exact
read_exact-ok zero bs xs rest h = ground arith
read_exact-ok (suc n) [] xs rest h = cc
read_exact-ok (suc n) (b ∷ bs) xs rest h = elim (Result-cases (read_exact n bs)) [
  | inl ((ys, left), e) ↦ ground (arith, read_exact-ok n bs ys left e)
  | inr (p, e) ↦ cc
]

-- The exact bytes of a field, and what the rest of the reader did.
pub exact_read :
    {B : Type 0} {r : B × Bytes} (n : ℕ) (f : Bytes × Bytes → Result IoError (B × Bytes))
    (bs : Bytes)
    → All IsByte bs
    → (read_exact n bs >>= f) ≡ ok r
    → (xs : Bytes) × (bs' : Bytes) × ((length xs ≡ n) × All IsByte xs)
      × (bs ≡ xs ++ bs')
      × All IsByte bs'
      × (f (xs, bs') ≡ ok r)
exact_read n f bs s h =
    let ((xs, bs'), e, k) = >>=-eq-ok (read_exact n bs) f h in
    let (p, w) = read_exact-ok n bs xs bs' e in
    let s' = rw w at s in (xs, bs', (p, All-front xs bs' s'), w, All-rest xs bs' s', k)

module _ {b : Borsh} {IsText IsAccount : Bytes → Type 0} (l : BorshLaws b IsText IsAccount) where
  -- A whole slice reads as a value exactly when it is the value's encoding, and nothing else.
  pub slice-write :
      {A : Type 0} {P : A → Type 0} {c : Codec A}
      → Lawful P c
      → (bs : Bytes) (a : A) → All IsByte bs
      → b.try_from_slice A c.read bs ≡ ok a
      → P a × (bs ≡ c.write a)
  slice-write {A} {P} {c} w bs a s h = elim (Result-cases (c.read bs)) [
    | inl ((x, []), e) ↦
        let (p, q) = w.write_read bs x [] s e in
        let same : x ≡ a = cc (l.slice_whole A c.read bs x e) in
        subst (λ y. P y × (bs ≡ c.write y)) same (p, q ∙ append-nil (c.write x))
    | inl ((x, y ∷ ys), e) ↦ cc (l.slice_left A c.read bs x y ys e)
    | inr (p, e) ↦ cc (l.slice_err A c.read bs p e)
  ]

  pub slice_of_write :
      {A : Type 0} {P : A → Type 0} {c : Codec A}
      → Lawful P c
      → (a : A) → P a
      → b.try_from_slice A c.read (c.write a) ≡ ok a
  slice_of_write {A} {c} w a p =
      l.slice_whole A c.read (c.write a) a (rw append-nil at (w.read-write a [] p))

-- Two fields in a row take their two encodings off the input.
pub join : (v w b2 : Bytes) {bs b1 : Bytes} → bs ≡ v ++ b1 → b1 ≡ w ++ b2 → bs ≡ (v ++ w) ++ b2
join v w b2 p q = p ∙ rw q (sym (append_assoc v w b2))

-- No encoding goes on where another one ends.
pub write-prefix :
    {A : Type 0} {P : A → Type 0} {c : Codec A}
    → Lawful P c
    → (a a' : A) (more : Bytes) → P a
    → P a'
    → c.write a' ≡ c.write a ++ more
    → more ≡ []
write-prefix {c} l a a' more p p' same =
    let whole = rw append-nil at (l.read-write a' [] p') in
    let cut = rw (sym same) at (l.read-write a more p) in cc (whole, cut)
