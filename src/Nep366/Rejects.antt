-- ===== src/Nep366/Rejects.antt =====
-- What contracts/gate/src/nep366.rs refuses: other actions than a function call, any number of actions
-- but one, and keys and signatures of other curves than ed25519.
use sequential_near.Prelude.{
  ℕ, ◌≡◌, ◌≢◌, ◌↔◌, refl, List, [], ◌∷◌, ◌++◌, ok, err, arith, length, nat_eq, nat_eq_iff,
  append_assoc, false, if◌then◌else◌,
}
use sequential_near.Host.{Bytes, Text}
use sequential_near.Borsh.{
  IsByte, Borsh, BorshLaws, nested_delegate, unsupported_variant, bad_key_tag, bad_signature_tag,
}
use sequential_near.Nep366.Fields.{IsDelegate, actions_law}
use sequential_near.Nep366.RoundTrip.{read_delegate-Lawful}
use sequential_near.Nep366.{
  SignedDelegateAction, read_signature, read_public_key, read_signed, read_delegate, write_delegate,
  parse_signed, action_codec, DelegateAction, FunctionCallAction, function_call, read_action,
  action_tag_delegate, action_tag_function_call, require_single_function_call, not_one_action,
  out_of_range, NonDelegateAction,
}

-- Under borsh's laws, every action whose tag is not that of a function call is refused, whatever bytes
-- follow it: a nested delegate as such, and any other with its tag.
pub read_action-refuses :
    {b : Borsh} {IsText IsAccount : Text → Type 0}
    → BorshLaws b IsText IsAccount
    → (tag : ℕ) (rest : Bytes) → IsByte tag
    → tag ≢ action_tag_function_call
    → read_action b (b.u8.write tag ++ rest) ≡ (
        if nat_eq tag action_tag_delegate
        then err nested_delegate
        else err (unsupported_variant tag))
unfolding read_action
read_action-refuses {b} l tag rest h ne = rw (l.u8_law.read-write tag rest h) (ground arith)

-- A delegate passes exactly when it holds one action, and the call in that action is the answer; any
-- other number of actions is refused as such, and the indexing is never out of range.
pub require_single_function_call_iff :
    (d : DelegateAction)
    → ((fc : FunctionCallAction)
        → (require_single_function_call d ≡ ok fc) ↔ (d.actions ≡ function_call fc ∷ []))
      × ((require_single_function_call d ≡ err not_one_action) ↔ (length d.actions ≢ 1))
      × (require_single_function_call d ≢ err out_of_range)
unfolding require_single_function_call
require_single_function_call_iff d = cases d.actions refl
  where
    cases :
        (actions : List NonDelegateAction)
        → d.actions ≡ actions
        → ((fc : FunctionCallAction)
            → (require_single_function_call d ≡ ok fc) ↔ (d.actions ≡ function_call fc ∷ []))
          × ((require_single_function_call d ≡ err not_one_action) ↔ (length d.actions ≢ 1))
          × (require_single_function_call d ≢ err out_of_range)
    cases [] e = rw e ((λ fc. ground arith), ground arith, ground arith)
    cases (function_call f ∷ []) e = rw e ((λ fc. ground arith), ground arith, ground arith)
    cases (a ∷ a' ∷ rest) e = rw e ((λ fc. ground arith), ground arith, ground arith)

-- A delegate up to its public key.
abbrev pub before_key : Borsh → DelegateAction → Bytes
before_key b d =
    b.account.write d.sender_id
    ++ (b.account.write d.receiver_id
        ++ ((b.vec NonDelegateAction (action_codec b)).write d.actions
            ++ (b.u64.write d.nonce ++ b.u64.write d.max_block_height)))

module _ {b : Borsh} {IsText IsAccount : Text → Type 0} (l : BorshLaws b IsText IsAccount) where
  other_tag : (tag : ℕ) → tag ≢ 0 → nat_eq tag 0 ≡ false
  other_tag tag ne = ground (arith, nat_eq_iff tag 0)

  read_signature-refuses :
      (tag : ℕ) (rest : Bytes)
      → IsByte tag
      → tag ≢ 0
      → read_signature b (b.u8.write tag ++ rest) ≡ err (bad_signature_tag tag)
  unfolding read_signature
  read_signature-refuses tag rest h ne =
      rw (l.u8_law.read-write tag rest h) (rw (other_tag tag ne) refl)

  read_public_key-refuses :
      (tag : ℕ) (rest : Bytes)
      → IsByte tag
      → tag ≢ 0
      → read_public_key b (b.u8.write tag ++ rest) ≡ err (bad_key_tag tag)
  unfolding read_public_key
  read_public_key-refuses tag rest h ne =
      rw (l.u8_law.read-write tag rest h) (rw (other_tag tag ne) refl)

  read_signed-refuses_signature :
      (d : DelegateAction) (tag : ℕ) (rest : Bytes)
      → IsDelegate IsText IsAccount d
      → IsByte tag
      → tag ≢ 0
      → read_signed b (write_delegate b d ++ (b.u8.write tag ++ rest)) ≡ err (bad_signature_tag tag)
  unfolding read_signed
  read_signed-refuses_signature d tag rest v h ne =
      rw ((read_delegate-Lawful l).read-write d (b.u8.write tag ++ rest) v)
        (rw (read_signature-refuses tag rest h ne) refl)

  read_delegate-refuses_key :
      (d : DelegateAction) (tag : ℕ) (rest : Bytes)
      → IsDelegate IsText IsAccount d
      → IsByte tag
      → tag ≢ 0
      → read_delegate b (before_key b d ++ (b.u8.write tag ++ rest)) ≡ err (bad_key_tag tag)
  unfolding read_delegate
  read_delegate-refuses_key d tag rest v h ne = simp (
    append_assoc,
    l.account_law.read-write d.sender_id _ v.sender_account,
    l.account_law.read-write d.receiver_id _ v.receiver_account,
    (actions_law l).read-write d.actions _ v.actions_valid,
    l.u64_law.read-write d.nonce _ v.nonce_u64,
    l.u64_law.read-write d.max_block_height _ v.height_u64,
    read_public_key-refuses tag rest h ne,
  )

  -- Under borsh's laws, input that begins with a delegate that the Rust types can hold, up to its public
  -- key or up to its signature, and goes on with the tag of another curve than ed25519, is refused as a
  -- whole, with that tag in the error, whatever bytes follow it.
  pub parse_signed-refuses_curve :
      (d : DelegateAction) (tag : ℕ) (rest : Bytes)
      → IsDelegate IsText IsAccount d
      → IsByte tag
      → tag ≢ 0
      → (parse_signed b (write_delegate b d ++ (b.u8.write tag ++ rest))
          ≡ err (bad_signature_tag tag))
        × (parse_signed b (before_key b d ++ (b.u8.write tag ++ rest)) ≡ err (bad_key_tag tag))
  unfolding parse_signed read_signed
  parse_signed-refuses_curve d tag rest v h ne = (
    l.slice_err SignedDelegateAction _ _ _ (read_signed-refuses_signature d tag rest v h ne),
    l.slice_err SignedDelegateAction _ _ _ (rw (read_delegate-refuses_key d tag rest v h ne) refl),
  )
