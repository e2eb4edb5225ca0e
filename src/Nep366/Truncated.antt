-- ===== src/Nep366/Truncated.antt =====
-- `try_from_slice` of contracts/gate/src/nep366.rs on input that breaks off.
use sequential_near.Prelude.{◌≡◌, ◌≢◌, ◌∙◌, ap, sym, inl, inr, [], ◌++◌, All, ok, err, Result-cases}
use sequential_near.Host.{Bytes, Text}
use sequential_near.Borsh.{IsByte, IoError, Borsh, BorshLaws}
use sequential_near.Borsh.Laws.{All-front, write-prefix}
use sequential_near.Nep366.{SignedDelegateAction, parse_signed}
use sequential_near.Nep366.RoundTrip.{read_signed-Lawful, parse_signed-ok}

-- Under borsh's laws, a signed delegate that is cut off anywhere is refused: where bytes parse, none of
-- their proper prefixes does.
pub parse_signed-refuses_prefix :
    {b : Borsh} {IsText IsAccount : Text → Type 0}
    → BorshLaws b IsText IsAccount
    → (bs more : Bytes) (s : SignedDelegateAction) → All IsByte (bs ++ more)
    → more ≢ []
    → parse_signed b (bs ++ more) ≡ ok s
    → (e : IoError) × (parse_signed b bs ≡ err e)
parse_signed-refuses_prefix {b} l bs more s bytes some_left whole =
    elim (Result-cases (parse_signed b bs)) [
      | inl (s', cut) ↦
          let (v, e) = parse_signed-ok l (bs ++ more) s bytes whole in
          let (v', e') = parse_signed-ok l bs s' (All-front bs more bytes) cut in
          absurd (
            some_left
              (write-prefix (read_signed-Lawful l) s' s more v' v (sym e ∙ ap (λ x. x ++ more) e')))
      | inr refused ↦ refused
    ]
