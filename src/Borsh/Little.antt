-- ===== src/Borsh/Little.antt =====
-- One implementation of the borsh primitives that has the documented laws: little-endian numbers,
-- texts and vectors behind a `u32` length. It shows that the laws can hold, and runs the tests. Its
-- texts are the ASCII ones, and its account ids those over the usual characters, of 2 to 64 bytes.
use sequential_near.Prelude.{
  ℕ, zero, suc, ◌+◌, ◌*◌, ◌/◌, ◌%◌, ◌^◌, ◌<◌, ◌≡◌, refl, Bool, true, ◌&&◌, ◌||◌, List, [], ◌∷◌,
  ◌++◌, append_assoc, All, length, Result, ok, err, ◌>>=◌, ◌>>◌, require, >>=-eq-ok, require-eq-ok,
  of_ok_eq, arith, leb, ltb, nat_eq, ◌∙◌, sym, ap,
}
use native.Mathlib.Nat.{pow-succ'}
use sequential_near.Prelude.Word.{u32_mod}
use sequential_near.Host.{Bytes, Text}
use sequential_near.Borsh.{
  IsByte, IoError, short_read, invalid_value, leftover_bytes, Reader, Codec, read_exact, Lawful,
  Borsh, BorshLaws,
}
use sequential_near.Borsh.Laws.{field_read, exact_read, read_exact-append, join}

unfoldable pub le_write : ℕ → ℕ → Bytes
le_write zero n = []
le_write (suc k) n = n % 256 ∷ le_write k (n / 256)

unfoldable pub le_read : ℕ → Reader ℕ
le_read zero bs = ok (0, bs)
le_read (suc k) [] = err short_read
le_read (suc k) (b ∷ bs) = do (n, rest) ← le_read k bs; ok (b + 256 * n, rest)

div_pow : (k n : ℕ) → n < 256 ^ suc k → n / 256 < 256 ^ k
div_pow k n h = omega (arith, pow-succ' 256 k)

digit_pow : (k b m : ℕ) → IsByte b → m < 256 ^ k → b + 256 * m < 256 ^ suc k
digit_pow k b m h p = omega (arith, pow-succ' 256 k)

le_read-le_write :
    (k n : ℕ) (rest : Bytes) → n < 256 ^ k → le_read k (le_write k n ++ rest) ≡ ok (n, rest)
unfolding le_read le_write
le_read-le_write zero n rest h = ground arith
le_read-le_write (suc k) n rest h =
    rw (le_read-le_write k (n / 256) rest (div_pow k n h)) (ground arith)

le_write-le_read :
    (k : ℕ) (bs : Bytes) (n : ℕ) (rest : Bytes)
    → All IsByte bs
    → le_read k bs ≡ ok (n, rest)
    → (n < 256 ^ k) × (bs ≡ le_write k n ++ rest)
unfolding le_read le_write
le_write-le_read zero bs n rest s h = ground arith
le_write-le_read (suc k) [] n rest s h = cc
le_write-le_read (suc k) (b ∷ bs) n rest (sb, s) h =
    let ((m, left), e, h1) = >>=-eq-ok (le_read k bs) _ h in
    let (p, w) = le_write-le_read k bs m left s e in
    let low : (b + 256 * m) % 256 ≡ b = omega arith in
    let high : (b + 256 * m) / 256 ≡ m = omega arith in
    of_ok_eq
      (λ (x : ℕ × Bytes).
        (x.0 < 256 ^ suc k) × (b ∷ bs ≡ x.0 % 256 ∷ (le_write k (x.0 / 256) ++ x.1)))
      h1 (digit_pow k b m sb p, cc (low, high, w))

-- A number of `k` bytes.
abbrev pub le : ℕ → Codec ℕ
le k = record { write = le_write k; read = le_read k }

le_law : (k : ℕ) → Lawful (λ n. n < 256 ^ k) (le k)
le_law k = record { read-write = le_read-le_write k; write_read = le_write-le_read k }

abbrev pub all {ℓ} : {A : Type ℓ} → (A → Bool) → List A → Bool
all p [] = true
all p (x ∷ xs) = p x && all p xs

-- A text behind its length, with a check of what it holds.
abbrev pub text_codec : (Bytes → Bool) → Codec Text
text_codec valid = record {
  write = λ s. le_write 4 (length s) ++ s;
  read = λ bs. do
    (n, bs) ← le_read 4 bs
    (s, bs) ← read_exact n bs
    require (valid s) invalid_value
    ok (s, bs);
}

abbrev pub IsValidText : (Bytes → Bool) → Text → Type 0
IsValidText valid s = (valid s ≡ true) × (All IsByte s × (length s < u32_mod))

text_codec-Lawful : (valid : Bytes → Bool) → Lawful (IsValidText valid) (text_codec valid)
text_codec-Lawful valid = record {
  read-write = λ s rest v.
      rw (append_assoc, le_read-le_write 4 (length s) (s ++ rest) (omega (arith, v.1.1)))
        (rw (read_exact-append s rest) (rw v.0));
  write_read = λ bs s rest b h.
      let (n, b1, p1, e1, s1, h1) = field_read (le_law 4) _ bs b h in
      let (xs, b2, p2, e2, s2, h2) = exact_read n _ b1 s1 h1 in
      let (t, h3) = require-eq-ok (valid xs) _ _ h2 in
      of_ok_eq
        (λ (x : Text × Bytes).
          IsValidText valid x.0 × (bs ≡ (le_write 4 (length x.0) ++ x.0) ++ x.1))
        h3
        (
          (t, (p2.1, omega (arith, p1, p2.0))),
          join _ _ b2 (e1 ∙ ap (λ k. le_write 4 k ++ b1) (sym p2.0)) e2,
        );
}

-- The elements one after the other.
abbrev pub write_items : {A : Type 0} → Codec A → List A → Bytes
write_items c [] = []
write_items c (x ∷ xs) = c.write x ++ write_items c xs

unfoldable pub read_items : {A : Type 0} → Codec A → ℕ → Reader (List A)
read_items c zero bs = ok ([], bs)
read_items c (suc n) bs = do (x, bs) ← c.read bs; (xs, bs) ← read_items c n bs; ok (x ∷ xs, bs)

abbrev pub vec_codec : (A : Type 0) → Codec A → Codec (List A)
vec_codec A c = record {
  write = λ xs. le_write 4 (length xs) ++ write_items c xs;
  read = λ bs. do
    (n, bs) ← le_read 4 bs
    read_items c n bs;
}

module _ {A : Type 0} {P : A → Type 0} {c : Codec A} (l : Lawful P c) where
  read_items-write_items :
      (xs : List A) (rest : Bytes)
      → All P xs
      → read_items c (length xs) (write_items c xs ++ rest) ≡ ok (xs, rest)
  unfolding read_items
  read_items-write_items [] rest v = refl
  read_items-write_items (x ∷ xs) rest v =
      rw (append_assoc, l.read-write x _ v.0) (rw (read_items-write_items xs rest v.1))

  write_items-read_items :
      (n : ℕ) (bs : Bytes) (xs : List A) (rest : Bytes)
      → All IsByte bs
      → read_items c n bs ≡ ok (xs, rest)
      → (All P xs × (length xs ≡ n)) × (bs ≡ write_items c xs ++ rest)
  unfolding read_items
  write_items-read_items zero bs xs rest s h =
      of_ok_eq
        (λ (x : List A × Bytes). (All P x.0 × (length x.0 ≡ 0)) × (bs ≡ write_items c x.0 ++ x.1)) h
        ((tt, refl), refl)
  write_items-read_items (suc n) bs xs rest s h =
      let (y, b1, p1, e1, s1, h1) = field_read l _ bs s h in
      let ((ys, b2), e, h2) = >>=-eq-ok (read_items c n b1) _ h1 in
      let ((p, len), w) = write_items-read_items n b1 ys b2 s1 e in
      of_ok_eq
        (λ (x : List A × Bytes).
          (All P x.0 × (length x.0 ≡ suc n)) × (bs ≡ write_items c x.0 ++ x.1))
        h2 (((p1, p), ap suc len), join _ _ b2 e1 w)

  vec_codec-Lawful : Lawful (λ xs. All P xs × (length xs < u32_mod)) (vec_codec A c)
  vec_codec-Lawful = record {
    read-write = λ xs rest v.
        rw (append_assoc, le_read-le_write 4 (length xs) _ (omega (arith, v.1)))
          (read_items-write_items xs rest v.0);
    write_read = λ bs xs rest s h.
        let (n, b1, p1, e1, s1, h1) = field_read (le_law 4) _ bs s h in
        let ((p, len), w) = write_items-read_items n b1 xs rest s1 h1 in
        (
          (p, omega (arith, p1, len)),
          join _ _ rest (e1 ∙ ap (λ k. le_write 4 k ++ b1) (sym len)) w,
        );
  }

-- `try_from_slice`: the whole slice or an error.
unfoldable pub whole : {A : Type 0} → Result IoError (A × Bytes) → Result IoError A
whole (ok (a, [])) = ok a
whole (ok (a, x ∷ rest)) = err leftover_bytes
whole (err e) = err e

unfoldable pub is_ascii : ℕ → Bool
is_ascii c = ltb c 128

unfoldable pub is_account_char : ℕ → Bool
is_account_char c =
    leb b'a' c && leb c b'z'
    || leb b'0' c && leb c b'9'
    || nat_eq c b'.'
    || nat_eq c b'-'
    || nat_eq c b'_'

unfoldable pub is_account : Bytes → Bool
is_account s = leb 2 (length s) && leb (length s) 64 && all is_account_char s

abbrev pub little : Borsh
little = record {
  u8 = le 1;
  u32 = le 4;
  u64 = le 8;
  u128 = le 16;
  text = text_codec (all is_ascii);
  account = text_codec is_account;
  vec = vec_codec;
  try_from_slice = λ A r bs. whole (r bs);
}

pub little_laws : BorshLaws little (IsValidText (all is_ascii)) (IsValidText is_account)
unfolding whole
little_laws = record {
  u8_law = le_law 1;
  u32_law = le_law 4;
  u64_law = le_law 8;
  u128_law = le_law 16;
  text_law = text_codec-Lawful (all is_ascii);
  account_law = text_codec-Lawful is_account;
  vec_law = λ A P c l. vec_codec-Lawful l;
  slice_whole = λ A r bs a h. rw h;
  slice_left = λ A r bs a x rest h. rw h;
  slice_err = λ A r bs e h. rw h;
}
