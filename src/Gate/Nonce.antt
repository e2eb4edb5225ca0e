-- ===== src/Gate/Nonce.antt =====
-- The key of the replay protection, `format!("{}|{}", sender_id, nonce)` in `submit_intent`.
use sequential_near.Prelude.{
  ℕ, zero, suc, ◌+◌, ◌-◌, ◌*◌, ◌/◌, ◌%◌, ◌^◌, ◌<◌, ◌≡◌, ◌≢◌, refl, ap, [], ◌∷◌, ◌++◌, All, arith,
  ltb, if◌then◌else◌,
}
use native.Mathlib.Nat.{pow-succ'}
use sequential_near.Prelude.Word.{u64_mod}
use sequential_near.Host.{Text, AccountId}

-- The digits of a number in front of `acc`, with fuel for as many.
unfoldable pub digits : ℕ → ℕ → Text → Text
digits zero n acc = acc
digits (suc fuel) n acc =
    let longer = digits fuel (n / 10) ((b'0' + n % 10) ∷ acc) in
    if ltb n 10 then (b'0' + n % 10) ∷ acc else longer

-- Rust's `Display` of a `u64`, which has at most 20 digits.
unfoldable pub decimal : ℕ → Text
unfolding digits
decimal n = digits 20 n []

unfoldable pub nonce_key : AccountId → ℕ → Text
nonce_key sender_id nonce = sender_id ++ (b'|' ∷ decimal nonce)

-- The number that the digits of a text stand for, behind `v`.
number : ℕ → Text → ℕ
number v [] = v
number v (d ∷ ds) = number (10 * v + (d - b'0')) ds

last_digit : (n : ℕ) → 10 * (n / 10) + (b'0' + n % 10 - b'0') ≡ n
last_digit n = omega arith

only_digit : (n : ℕ) → n < 10 → 10 * 0 + (b'0' + n % 10 - b'0') ≡ n
only_digit n h = omega arith

number-digits :
    (fuel n : ℕ) (acc : Text) → n < 10 ^ fuel → number 0 (digits fuel n acc) ≡ number n acc
unfolding number digits
number-digits zero n acc h = ap (λ v. number v acc) (omega arith)
number-digits (suc fuel) n acc h = ground (
  arith,
  pow-succ' 10 fuel,
  number-digits fuel (n / 10) ((b'0' + n % 10) ∷ acc),
  ap (λ v. number v acc) (last_digit n),
  λ (p : n < 10). ap (λ v. number v acc) (only_digit n p),
)

number-decimal : (n : ℕ) → n < u64_mod → number 0 (decimal n) ≡ n
unfolding number decimal
number-decimal n h = number-digits 20 n [] (omega arith)

digits_no_bar :
    (fuel n : ℕ) (acc : Text) → All (λ d. d ≢ b'|') acc → All (λ d. d ≢ b'|') (digits fuel n acc)
unfolding digits
digits_no_bar zero n acc h = h
digits_no_bar (suc fuel) n acc h =
    ground (arith, digits_no_bar fuel (n / 10) ((b'0' + n % 10) ∷ acc))

bar_absent : (xs ys : Text) → All (λ d. d ≢ b'|') (xs ++ (b'|' ∷ ys)) → ⊥
bar_absent [] ys h = h.0 refl
bar_absent (x ∷ xs) ys h = bar_absent xs ys h.1

-- The last bar splits a text in one way.
split_last :
    (xs ys ds es : Text)
    → All (λ d. d ≢ b'|') ds
    → All (λ d. d ≢ b'|') es
    → xs ++ (b'|' ∷ ds) ≡ ys ++ (b'|' ∷ es)
    → (xs ≡ ys) × (ds ≡ es)
split_last [] [] ds es hd he e = (refl, cc)
split_last [] (y ∷ ys) ds es hd he e =
    let behind : ds ≡ ys ++ (b'|' ∷ es) = cc in absurd (bar_absent ys es (rw behind at hd))
split_last (x ∷ xs) [] ds es hd he e =
    let behind : es ≡ xs ++ (b'|' ∷ ds) = cc in absurd (bar_absent xs ds (rw behind at he))
split_last (x ∷ xs) (y ∷ ys) ds es hd he e =
    let (p, q) = split_last xs ys ds es hd he (cc) in (cc, q)

-- No two pairs of a sender and a `u64` nonce share a key, whatever characters the senders have.
pub nonce_key-injective :
    (s t : AccountId) (m n : ℕ)
    → m < u64_mod
    → n < u64_mod
    → nonce_key s m ≡ nonce_key t n
    → (s ≡ t) × (m ≡ n)
unfolding nonce_key
nonce_key-injective s t m n hm hn e =
    let (p, q) = split_last s t (decimal m) (decimal n) (no_bar m) (no_bar n) e in
    (p, cc (q, number-decimal m hm, number-decimal n hn))
  where
    no_bar : (n : ℕ) → All (λ d. d ≢ b'|') (decimal n)
    no_bar n = unfold decimal in digits_no_bar 20 n [] tt
