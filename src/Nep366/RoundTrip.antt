-- ===== src/Nep366/RoundTrip.antt =====
-- The readers and writers of contracts/gate/src/nep366.rs are inverse to one another, type by type.
use sequential_near.Prelude.{◌≡◌, ◌++◌, append_assoc, All, ok, of_ok_eq}
use sequential_near.Host.{Bytes, Text}
use sequential_near.Borsh.{IsByte, Lawful, Borsh, BorshLaws}
use sequential_near.Borsh.Laws.{field_read, join, slice-write, slice_of_write}
use sequential_near.Nep366.{
  DelegateAction, SignedDelegateAction, write_delegate, read_delegate, write_signed, read_signed,
  parse_signed,
}
use sequential_near.Nep366.Fields.{
  IsDelegate, IsSigned, read_public_key-Lawful, read_signature-Lawful, actions_law,
}

module _ {b : Borsh} {IsText IsAccount : Text → Type 0} (l : BorshLaws b IsText IsAccount) where
  delegate_read-write :
      (d : DelegateAction) (rest : Bytes)
      → IsDelegate IsText IsAccount d
      → read_delegate b (write_delegate b d ++ rest) ≡ ok (d, rest)
  unfolding read_delegate write_delegate
  delegate_read-write d rest v = simp (
    append_assoc,
    l.account_law.read-write d.sender_id _ v.sender_account,
    l.account_law.read-write d.receiver_id _ v.receiver_account,
    (actions_law l).read-write d.actions _ v.actions_valid,
    l.u64_law.read-write d.nonce _ v.nonce_u64,
    l.u64_law.read-write d.max_block_height _ v.height_u64,
    (read_public_key-Lawful l).read-write d.public_key rest v.key_valid,
  )

  read_delegate-ok :
      (bs : Bytes) (d : DelegateAction) (rest : Bytes)
      → All IsByte bs
      → read_delegate b bs ≡ ok (d, rest)
      → IsDelegate IsText IsAccount d × (bs ≡ write_delegate b d ++ rest)
  unfolding read_delegate write_delegate
  read_delegate-ok bs d rest s h =
      let (sender, b1, p1, e1, s1, h1) = field_read l.account_law _ bs s h in
      let (receiver, b2, p2, e2, s2, h2) = field_read l.account_law _ b1 s1 h1 in
      let (actions, b3, p3, e3, s3, h3) = field_read (actions_law l) _ b2 s2 h2 in
      let (nonce, b4, p4, e4, s4, h4) = field_read l.u64_law _ b3 s3 h3 in
      let (height, b5, p5, e5, s5, h5) = field_read l.u64_law _ b4 s4 h4 in
      let (key, b6, p6, e6, s6, h6) = field_read (read_public_key-Lawful l) _ b5 s5 h5 in
      of_ok_eq
        (λ (x : DelegateAction × Bytes).
          IsDelegate IsText IsAccount x.0 × (bs ≡ write_delegate b x.0 ++ x.1))
        h6
        (
          record {
            sender_account = p1;
            receiver_account = p2;
            actions_valid = p3;
            nonce_u64 = p4;
            height_u64 = p5;
            key_valid = p6;
          },
          join _ _ b6 e1 (join _ _ b6 e2 (join _ _ b6 e3 (join _ _ b6 e4 (join _ _ b6 e5 e6)))),
        )

  pub read_delegate-Lawful :
      Lawful
        (IsDelegate IsText IsAccount)
        (record { write = write_delegate b; read = read_delegate b })
  read_delegate-Lawful = record { read-write = delegate_read-write; write_read = read_delegate-ok }

  signed_read-write :
      (d : SignedDelegateAction) (rest : Bytes)
      → IsSigned IsText IsAccount d
      → read_signed b (write_signed b d ++ rest) ≡ ok (d, rest)
  unfolding read_signed write_signed
  signed_read-write d rest v = simp (
    append_assoc,
    read_delegate-Lawful.read-write d.delegate_action _ v.delegate_valid,
    (read_signature-Lawful l).read-write d.signature rest v.signature_valid,
  )

  read_signed-ok :
      (bs : Bytes) (d : SignedDelegateAction) (rest : Bytes)
      → All IsByte bs
      → read_signed b bs ≡ ok (d, rest)
      → IsSigned IsText IsAccount d × (bs ≡ write_signed b d ++ rest)
  unfolding read_signed write_signed
  read_signed-ok bs d rest s h =
      let (action, b1, p1, e1, s1, h1) = field_read read_delegate-Lawful _ bs s h in
      let (signature, b2, p2, e2, s2, h2) = field_read (read_signature-Lawful l) _ b1 s1 h1 in
      of_ok_eq
        (λ (x : SignedDelegateAction × Bytes).
          IsSigned IsText IsAccount x.0 × (bs ≡ write_signed b x.0 ++ x.1))
        h2 (record { delegate_valid = p1; signature_valid = p2 }, join _ _ b2 e1 e2)

  pub read_signed-Lawful :
      Lawful (IsSigned IsText IsAccount) (record { write = write_signed b; read = read_signed b })
  read_signed-Lawful = record { read-write = signed_read-write; write_read = read_signed-ok }

  -- Under borsh's laws, a signed delegate that the Rust types can hold reads back from its own encoding.
  pub parse_signed-write_signed :
      (s : SignedDelegateAction)
      → IsSigned IsText IsAccount s
      → parse_signed b (write_signed b s) ≡ ok s
  unfolding parse_signed
  parse_signed-write_signed s v = slice_of_write l read_signed-Lawful s v

  -- The gate accepts no second spelling: under borsh's laws, bytes that parse as a signed delegate are
  -- its encoding, and the value is one that the Rust types can hold.
  pub parse_signed-ok :
      (bs : Bytes) (s : SignedDelegateAction)
      → All IsByte bs
      → parse_signed b bs ≡ ok s
      → IsSigned IsText IsAccount s × (bs ≡ write_signed b s)
  unfolding parse_signed
  parse_signed-ok bs s h e = slice-write l read_signed-Lawful bs s h e
