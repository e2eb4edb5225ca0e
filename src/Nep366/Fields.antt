-- ===== src/Nep366/Fields.antt =====
-- The parts of a delegate (contracts/gate/src/nep366.rs): the keys, signatures and actions, each read
-- back as it was written and from nothing else.
use sequential_near.Prelude.{
  ℕ, ◌<◌, ◌≡◌, sym, ap, ◌∙◌, ◌++◌, append_assoc, All, length, ok, arith, nat_eq, require-eq-ok,
  of_ok_eq, >>=-eq-ok, Bool-cases, inl, inr,
}
use mathlib.Core.Path.{subst}
use sequential_near.Prelude.Word.{u32_mod, u64_mod, u128_mod}
use sequential_near.Host.{Bytes, Text}
use sequential_near.Borsh.{IsByte, Lawful, Borsh, BorshLaws}
use sequential_near.Borsh.Laws.{field_read, exact_read, read_exact-append, join}
use sequential_near.Nep366.{
  Ed25519PublicKey, Ed25519Signature, FunctionCallAction, NonDelegateAction, function_call,
  DelegateAction, SignedDelegateAction, write_public_key, read_public_key, write_signature,
  read_signature, write_function_call, read_function_call, write_action, read_action, read_variant,
  action_codec, action_tag_function_call,
}

-- The arrays of the key and of the signature.
abbrev pub IsKey : Ed25519PublicKey → Type 0
IsKey key = (length key.bytes ≡ 32) × All IsByte key.bytes

abbrev pub IsSignature : Ed25519Signature → Type 0
IsSignature sig = (length sig.bytes ≡ 64) × All IsByte sig.bytes

module _ (IsText IsAccount : Text → Type 0) where
  -- The values that the Rust types can hold.
  pub record IsFunctionCall (fc : FunctionCallAction) : Type 0 where
    pub method_text : IsText fc.method_name
    pub args_bytes : All IsByte fc.args × (length fc.args < u32_mod)
    pub gas_u64 : fc.gas < u64_mod
    pub deposit_u128 : fc.deposit < u128_mod

  abbrev pub IsAction : NonDelegateAction → Type 0
  IsAction (function_call fc) = IsFunctionCall fc

  pub record IsDelegate (d : DelegateAction) : Type 0 where
    pub sender_account : IsAccount d.sender_id
    pub receiver_account : IsAccount d.receiver_id
    pub actions_valid : All IsAction d.actions × (length d.actions < u32_mod)
    pub nonce_u64 : d.nonce < u64_mod
    pub height_u64 : d.max_block_height < u64_mod
    pub key_valid : IsKey d.public_key

  pub record IsSigned (s : SignedDelegateAction) : Type 0 where
    pub delegate_valid : IsDelegate s.delegate_action
    pub signature_valid : IsSignature s.signature

module _ {b : Borsh} {IsText IsAccount : Text → Type 0} (l : BorshLaws b IsText IsAccount) where
  key_read-write :
      (key : Ed25519PublicKey) (rest : Bytes)
      → IsKey key
      → read_public_key b (write_public_key b key ++ rest) ≡ ok (key, rest)
  unfolding read_public_key write_public_key
  key_read-write key rest (len, _) =
      rw (append_assoc, l.u8_law.read-write 0 _ (omega arith))
        (rw (← len, read_exact-append key.bytes rest))

  read_public_key-ok :
      (bs : Bytes) (key : Ed25519PublicKey) (rest : Bytes)
      → All IsByte bs
      → read_public_key b bs ≡ ok (key, rest)
      → IsKey key × (bs ≡ write_public_key b key ++ rest)
  unfolding read_public_key write_public_key
  read_public_key-ok bs key rest s h =
      let (tag, b1, p1, e1, s1, h1) = field_read l.u8_law _ bs s h in
      let (t, h2) = require-eq-ok (nat_eq tag 0) _ _ h1 in
      let (xs, b2, p2, e2, s2, h3) = exact_read 32 _ b1 s1 h2 in
      let zero_tag : tag ≡ 0 = ground arith in
      of_ok_eq (λ (x : Ed25519PublicKey × Bytes). IsKey x.0 × (bs ≡ write_public_key b x.0 ++ x.1))
        h3 (p2, join (b.u8.write 0) xs b2 (e1 ∙ ap (λ t. b.u8.write t ++ b1) zero_tag) e2)

  signature_read-write :
      (sig : Ed25519Signature) (rest : Bytes)
      → IsSignature sig
      → read_signature b (write_signature b sig ++ rest) ≡ ok (sig, rest)
  unfolding read_signature write_signature
  signature_read-write sig rest (len, _) =
      rw (append_assoc, l.u8_law.read-write 0 _ (omega arith))
        (rw (← len, read_exact-append sig.bytes rest))

  read_signature-ok :
      (bs : Bytes) (sig : Ed25519Signature) (rest : Bytes)
      → All IsByte bs
      → read_signature b bs ≡ ok (sig, rest)
      → IsSignature sig × (bs ≡ write_signature b sig ++ rest)
  unfolding read_signature write_signature
  read_signature-ok bs sig rest s h =
      let (tag, b1, p1, e1, s1, h1) = field_read l.u8_law _ bs s h in
      let (t, h2) = require-eq-ok (nat_eq tag 0) _ _ h1 in
      let (xs, b2, p2, e2, s2, h3) = exact_read 64 _ b1 s1 h2 in
      let zero_tag : tag ≡ 0 = ground arith in
      of_ok_eq
        (λ (x : Ed25519Signature × Bytes). IsSignature x.0 × (bs ≡ write_signature b x.0 ++ x.1)) h3
        (p2, join (b.u8.write 0) xs b2 (e1 ∙ ap (λ t. b.u8.write t ++ b1) zero_tag) e2)

  -- A public key, and a signature, reads back as it was written, and is read from nothing else.
  pub read_public_key-Lawful :
      Lawful IsKey (record { write = write_public_key b; read = read_public_key b })
  read_public_key-Lawful = record { read-write = key_read-write; write_read = read_public_key-ok }

  pub read_signature-Lawful :
      Lawful IsSignature (record { write = write_signature b; read = read_signature b })
  read_signature-Lawful = record {
    read-write = signature_read-write;
    write_read = read_signature-ok;
  }

  args_law : Lawful (λ xs. All IsByte xs × (length xs < u32_mod)) (b.vec ℕ b.u8)
  args_law = l.vec_law ℕ IsByte b.u8 l.u8_law

  call_read-write :
      (fc : FunctionCallAction) (rest : Bytes)
      → IsFunctionCall IsText IsAccount fc
      → read_function_call b (write_function_call b fc ++ rest) ≡ ok (fc, rest)
  unfolding read_function_call write_function_call
  call_read-write fc rest v = simp (
    append_assoc,
    l.text_law.read-write fc.method_name _ v.method_text,
    args_law.read-write fc.args _ v.args_bytes,
    l.u64_law.read-write fc.gas _ v.gas_u64,
    l.u128_law.read-write fc.deposit rest v.deposit_u128,
  )

  read_function_call-ok :
      (bs : Bytes) (fc : FunctionCallAction) (rest : Bytes)
      → All IsByte bs
      → read_function_call b bs ≡ ok (fc, rest)
      → IsFunctionCall IsText IsAccount fc × (bs ≡ write_function_call b fc ++ rest)
  unfolding read_function_call write_function_call
  read_function_call-ok bs fc rest s h =
      let (name, b1, p1, e1, s1, h1) = field_read l.text_law _ bs s h in
      let (args, b2, p2, e2, s2, h2) = field_read args_law _ b1 s1 h1 in
      let (gas, b3, p3, e3, s3, h3) = field_read l.u64_law _ b2 s2 h2 in
      let (deposit, b4, p4, e4, s4, h4) = field_read l.u128_law _ b3 s3 h3 in
      of_ok_eq
        (λ (x : FunctionCallAction × Bytes).
          IsFunctionCall IsText IsAccount x.0 × (bs ≡ write_function_call b x.0 ++ x.1))
        h4
        (
          record { method_text = p1; args_bytes = p2; gas_u64 = p3; deposit_u128 = p4 },
          join _ _ b4 e1 (join _ _ b4 e2 (join _ _ b4 e3 e4)),
        )

  -- The arguments of a function call are any bytes, so that its reader and writer are inverse.
  read_function_call-Lawful :
      Lawful
        (IsFunctionCall IsText IsAccount)
        (record { write = write_function_call b; read = read_function_call b })
  read_function_call-Lawful = record {
    read-write = call_read-write;
    write_read = read_function_call-ok;
  }

  action_read-write :
      (a : NonDelegateAction) (rest : Bytes)
      → IsAction IsText IsAccount a
      → read_action b (write_action b a ++ rest) ≡ ok (a, rest)
  unfolding read_action write_action
  action_read-write (function_call fc) rest v =
      rw (append_assoc, l.u8_law.read-write action_tag_function_call _ (omega arith))
        (rw (call_read-write fc rest v))

  -- Only the tag of a function call leads to a value.
  variant-ok :
      (tag : ℕ) (bs : Bytes) (a : NonDelegateAction) (rest : Bytes)
      → read_variant b tag bs ≡ ok (a, rest)
      → (tag ≡ action_tag_function_call)
        × ((fc : FunctionCallAction) × (read_function_call b bs ≡ ok (fc, rest))
            × (a ≡ function_call fc))
  variant-ok tag bs a rest h = elim (Bool-cases (nat_eq tag action_tag_function_call)) [
    | inl t ↦
        let ((fc, left), e, k) = >>=-eq-ok (read_function_call b bs) _ (rw t at h) in
        (ground arith, (fc, ground (arith, e, k), cc k))
    | inr t ↦ ground arith
  ]

  read_action-ok :
      (bs : Bytes) (a : NonDelegateAction) (rest : Bytes)
      → All IsByte bs
      → read_action b bs ≡ ok (a, rest)
      → IsAction IsText IsAccount a × (bs ≡ write_action b a ++ rest)
  unfolding read_action write_action
  read_action-ok bs a rest s h =
      let (tag, b1, p1, e1, s1, h1) = field_read l.u8_law _ bs s h in
      let (t, (fc, r, k)) = variant-ok tag b1 a rest h1 in
      let (v, w) = read_function_call-ok b1 fc rest s1 r in
      subst (λ x. IsAction IsText IsAccount x × (bs ≡ write_action b x ++ rest)) (sym k)
        (v, join _ _ rest (e1 ∙ ap (λ n. b.u8.write n ++ b1) t) w)

  pub actions_law :
      Lawful
        (λ xs. All (IsAction IsText IsAccount) xs × (length xs < u32_mod))
        (b.vec NonDelegateAction (action_codec b))
  actions_law =
      l.vec_law NonDelegateAction (IsAction IsText IsAccount) (action_codec b)
        (record { read-write = action_read-write; write_read = read_action-ok })
