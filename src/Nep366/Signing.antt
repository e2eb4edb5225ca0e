-- ===== src/Nep366/Signing.antt =====
-- What a signature covers (contracts/gate/src/nep366.rs, `signed_message_hash` and `verify`).
use sequential_near.Prelude.{◌≡◌, ◌≢◌, ◌⊎◌, inl, inr, [], arith, Bool-cases, text_eq, text_eq_iff}
use sequential_near.Host.{Text}
use sequential_near.Borsh.{Borsh, BorshLaws}
use sequential_near.Nep366.{
  DelegateAction, Crypto, write_delegate, signed_message, signed_message_hash,
  nep_366_delegate_discriminant,
}
use sequential_near.Nep366.Fields.{IsDelegate}
use sequential_near.Nep366.RoundTrip.{read_delegate-Lawful}

module _ {b : Borsh} {IsText IsAccount : Text → Type 0} (l : BorshLaws b IsText IsAccount) where
  write_delegate-injective :
      (d e : DelegateAction)
      → IsDelegate IsText IsAccount d
      → IsDelegate IsText IsAccount e
      → write_delegate b d ≡ write_delegate b e
      → d ≡ e
  write_delegate-injective d e vd ve h =
      let rd = (read_delegate-Lawful l).read-write d [] vd in
      let re = (read_delegate-Lawful l).read-write e [] ve in cc (rd, re, h)

  -- Under borsh's laws, two delegates that the Rust types can hold and that have the same signed message
  -- are the same delegate.
  pub signed_message-injective :
      (d e : DelegateAction)
      → IsDelegate IsText IsAccount d
      → IsDelegate IsText IsAccount e
      → signed_message b d ≡ signed_message b e
      → d ≡ e
  unfolding signed_message
  signed_message-injective d e vd ve h =
      let rd =
        l.u32_law.read-write nep_366_delegate_discriminant (write_delegate b d) (omega arith) in
      let re =
        l.u32_law.read-write nep_366_delegate_discriminant (write_delegate b e) (omega arith) in
      write_delegate-injective d e vd ve (cc (rd, re, h))

  -- Under borsh's laws, two delegates that the Rust types can hold and that have one signed hash are the
  -- same delegate, or their messages differ and collide under `sha256`.
  pub signed_message_hash-eq :
      (k : Crypto) (d e : DelegateAction)
      → IsDelegate IsText IsAccount d
      → IsDelegate IsText IsAccount e
      → signed_message_hash b k d ≡ signed_message_hash b k e
      → (d ≡ e)
        ⊎ ((signed_message b d ≢ signed_message b e)
            × (k.sha256 (signed_message b d) ≡ k.sha256 (signed_message b e)))
  unfolding signed_message_hash
  signed_message_hash-eq k d e vd ve h =
      elim (Bool-cases (text_eq (signed_message b d) (signed_message b e))) [
        | inl t ↦ inl (signed_message-injective d e vd ve ((text_eq_iff _ _).0 t))
        | inr t ↦ inr ((λ p. cc ((text_eq_iff _ _).1 p, t)), h)
      ]
