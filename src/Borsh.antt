-- ===== src/Borsh.antt =====
-- The borsh crate, which the repository calls and does not contain: its writers and readers of
-- numbers, texts and vectors are a parameter, with the laws that its specification documents (one
-- encoding for each value, no value read from anything but its encoding).
pub mod Laws
pub mod Little
use sequential_near.Prelude.{
  ℕ, zero, suc, ◌<◌, ◌≡◌, List, [], ◌∷◌, ◌++◌, All, length, Result, ok, err, ◌>>=◌,
}
use sequential_near.Prelude.Word.{u32_mod, u64_mod, u128_mod}
use sequential_near.Host.{Bytes, Text, AccountId}

abbrev pub IsByte : ℕ → Type 0
IsByte b = b < 256

-- `std::io::Error`, by who raises it: the readers of contracts/gate/src/nep366.rs, `read_exact` at
-- the end of the input, or borsh itself.
pub data IoError : Type 0 where
  bad_key_tag bad_signature_tag unsupported_variant : ℕ → IoError
  nested_delegate short_read invalid_value leftover_bytes : IoError

-- `deserialize_reader`: the value read, and the input that is left.
abbrev pub Reader : Type 0 → Type 0
Reader A = Bytes → Result IoError (A × Bytes)

pub record Codec (A : Type 0) : Type 0 where
  pub write : A → Bytes
  pub read : Reader A

-- `Read::read_exact` on a slice.
unfoldable pub read_exact : ℕ → Reader Bytes
read_exact zero bs = ok ([], bs)
read_exact (suc n) [] = err short_read
read_exact (suc n) (b ∷ bs) = do (xs, rest) ← read_exact n bs; ok (b ∷ xs, rest)

-- The values of type `A` in memory are those that satisfy `P`.
pub record Lawful {A : Type 0} (P : A → Type 0) (c : Codec A) : Type 0 where
  pub read-write : (a : A) (rest : Bytes) → P a → c.read (c.write a ++ rest) ≡ ok (a, rest)
  pub write_read :
      (bs : Bytes) (a : A) (rest : Bytes)
      → All IsByte bs
      → c.read bs ≡ ok (a, rest)
      → P a × (bs ≡ c.write a ++ rest)

pub record Borsh : Type 1 where
  pub u8 : Codec ℕ
  pub u32 : Codec ℕ
  pub u64 : Codec ℕ
  pub u128 : Codec ℕ
  pub text : Codec Text
  pub account : Codec AccountId
  pub vec : (A : Type 0) → Codec A → Codec (List A)
  -- `try_from_slice` of the type that the reader reads
  pub try_from_slice : (A : Type 0) → Reader A → Bytes → Result IoError A

-- What borsh documents of them. `IsText` holds of the UTF-8 texts, `IsAccount` of the account ids.
pub record BorshLaws (b : Borsh) (IsText IsAccount : Text → Type 0) : Type 1 where
  pub u8_law : Lawful IsByte b.u8
  pub u32_law : Lawful (λ n. n < u32_mod) b.u32
  pub u64_law : Lawful (λ n. n < u64_mod) b.u64
  pub u128_law : Lawful (λ n. n < u128_mod) b.u128
  pub text_law : Lawful IsText b.text
  pub account_law : Lawful IsAccount b.account
  pub vec_law :
      (A : Type 0) (P : A → Type 0) (c : Codec A)
      → Lawful P c
      → Lawful (λ xs. All P xs × (length xs < u32_mod)) (b.vec A c)
  -- a slice that is read to its end gives the value, and one with bytes left over an error
  pub slice_whole :
      (A : Type 0) (r : Reader A) (bs : Bytes) (a : A)
      → r bs ≡ ok (a, [])
      → b.try_from_slice A r bs ≡ ok a
  pub slice_left :
      (A : Type 0) (r : Reader A) (bs : Bytes) (a : A) (x : ℕ) (rest : Bytes)
      → r bs ≡ ok (a, x ∷ rest)
      → b.try_from_slice A r bs ≡ err leftover_bytes
  pub slice_err :
      (A : Type 0) (r : Reader A) (bs : Bytes) (e : IoError)
      → r bs ≡ err e
      → b.try_from_slice A r bs ≡ err e
