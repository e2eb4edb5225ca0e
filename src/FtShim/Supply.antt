-- ===== src/FtShim/Supply.antt =====
-- The supply of the token (contracts/ft-shim/src/lib.rs) under any sequence of transfers.
use sequential_near.Prelude.{
  ℕ, ◌+◌, ◌-◌, ◌≤◌, ◌<◌, ◌≡◌, refl, ◌∙◌, ◌≢◌, ◌↔◌, inl, inr, none, List, [], ◌∷◌, arith, ok, err,
  Result-cases, text_key, text_eq_iff,
}
use sequential_near.Prelude.Map.{Map, lookup, insert, remove, lookup-insert, lookup-remove}
use sequential_near.Prelude.Word.{u128_mod}
use sequential_near.Host.{AccountId, Call}
use sequential_near.FtShim.{FtShim, balance, debit, new, transfer, balance_of}
use sequential_near.FtShim.Transfers.{balance-debit, transfer_ok_iff}

-- The sum of the stored balances.
abbrev pub total : Map AccountId ℕ → ℕ
total [] = 0
total ((_, b) ∷ m) = b + total m

-- No account is stored twice.
abbrev pub IsDistinct : Map AccountId ℕ → Type 0
IsDistinct [] = Unit
IsDistinct ((k, b) ∷ m) = (lookup k m ≡ none) × IsDistinct m

insert-IsDistinct :
    (k : AccountId) (v : ℕ) (m : Map AccountId ℕ) → IsDistinct m → IsDistinct (insert k v m)
unfolding insert
insert-IsDistinct k v [] h = unfold lookup in ground arith
insert-IsDistinct k v ((j, w) ∷ m) h =
    ground
      (arith, insert-IsDistinct k v m h.1, lookup-insert k j v m, text_eq_iff j k, text_eq_iff k j)

remove-IsDistinct : (k : AccountId) (m : Map AccountId ℕ) → IsDistinct m → IsDistinct (remove k m)
unfolding remove
remove-IsDistinct k [] h = tt
remove-IsDistinct k ((j, w) ∷ m) h =
    ground (arith, remove-IsDistinct k m h.1, lookup-remove k j m, text_eq_iff j k, text_eq_iff k j)

remove_absent : (k : AccountId) (m : Map AccountId ℕ) → lookup k m ≡ none → remove k m ≡ m
unfolding remove lookup
remove_absent k [] h = ground arith
remove_absent k ((j, w) ∷ m) h = ground (arith, remove_absent k m)

total-insert :
    (k : AccountId) (v : ℕ) (m : Map AccountId ℕ) → total (insert k v m) + balance k m ≡ total m + v
unfolding insert balance lookup
total-insert k v [] = omega arith
total-insert k v ((j, w) ∷ m) = ground (arith, total-insert k v m)

total-remove :
    (k : AccountId) (m : Map AccountId ℕ)
    → IsDistinct m
    → total (remove k m) + balance k m ≡ total m
unfolding remove balance lookup
total-remove k [] h = omega arith
total-remove k ((j, w) ∷ m) h =
    ground (arith, total-remove k m h.1, remove_absent k m, text_eq_iff j k)

balance-le-total : (k : AccountId) (m : Map AccountId ℕ) → balance k m ≤ total m
unfolding balance lookup
balance-le-total k [] = omega arith
balance-le-total k ((j, w) ∷ m) = ground (arith, balance-le-total k m)

total-debit :
    (k : AccountId) (v : ℕ) (m : Map AccountId ℕ)
    → IsDistinct m
    → total (debit k v m) + balance k m ≡ total m + v
total-debit k v m h = ground (arith, total-insert k v m, total-remove k m h)

debit-IsDistinct :
    (k : AccountId) (v : ℕ) (m : Map AccountId ℕ) → IsDistinct m → IsDistinct (debit k v m)
debit-IsDistinct k v m h = ground (arith, insert-IsDistinct k v m h, remove-IsDistinct k m h)

-- The stored balances add up to the supply, which is a `u128`.
pub record IsSound (ft : FtShim) : Type 0 where
  pub distinct : IsDistinct ft.balances
  pub conserved : total ft.balances ≡ ft.total_supply
  pub bounded : ft.total_supply < u128_mod

pub new-IsSound : (owner : AccountId) (supply : ℕ) → supply < u128_mod → IsSound (new owner supply)
unfolding new insert lookup
new-IsSound owner supply h = ground arith

module _ (c : Call) (to : AccountId) (amount : ℕ) (ft : FtShim) where
  abbrev left : ℕ
  left = balance c.predecessor ft.balances - amount

  -- The balances between the caller's debit and the receiver's credit.
  abbrev between : Map AccountId ℕ
  between = debit c.predecessor left ft.balances

  -- The receiver's entry is not touched by the debit, so that the two balances fit in the supply.
  room :
      IsSound ft
      → c.predecessor ≢ to
      → amount ≤ balance c.predecessor ft.balances
      → balance to ft.balances + amount ≤ ft.total_supply
  room s ne le = ground (
    arith,
    total-debit c.predecessor left ft.balances s.distinct,
    balance-le-total to between,
    balance-debit c.predecessor to left ft.balances,
    text_eq_iff c.predecessor to,
  )

  -- A transfer that goes through keeps a sound contract sound: no account is stored twice, the
  -- balances add up to the supply, and the supply is a `u128`.
  pub transfer-IsSound :
      {ft' : FtShim} → IsSound ft → transfer c to amount ft ≡ ok ft' → IsSound ft'
  unfolding transfer
  transfer-IsSound s h = ground (
    arith,
    total-debit c.predecessor left ft.balances s.distinct,
    debit-IsDistinct c.predecessor left ft.balances s.distinct,
    total-insert to (balance to ft.balances + amount) between,
    insert-IsDistinct to (balance to ft.balances + amount) between,
    balance-debit c.predecessor to left ft.balances,
    text_eq_iff c.predecessor to,
  )

  -- On sound balances the overflow check of `transfer` never fires: a transfer goes through exactly
  -- when the amount is positive, the caller is not the receiver, and its balance covers the amount.
  pub transfer_sound_iff :
      IsSound ft
      → ((ft' : FtShim) × (transfer c to amount ft ≡ ok ft'))
        ↔ ((0 < amount) × (c.predecessor ≢ to) × (amount ≤ balance_of c.predecessor ft))
  unfolding balance_of
  transfer_sound_iff s = (
    (λ h. let a = (transfer_ok_iff c to amount ft).0 h in (a.positive, a.distinct, a.covered)),
    (λ (p, ne, le). (transfer_ok_iff c to amount ft).1 (record {
      positive = p;
      distinct = ne;
      covered = le;
      fits = ground (arith, room s ne le);
    })),
  )

-- One call of the environment: the caller's context, the receiver and the amount.
abbrev pub Request : Type 0
Request = Call × AccountId × ℕ

-- A call that panics changes nothing.
pub attempt : Request → FtShim → FtShim
attempt (c, to, amount) ft = elim (transfer c to amount ft) [ ok ft' ↦ ft' | err _ ↦ ft ]

pub attempts : List Request → FtShim → FtShim
attempts [] ft = ft
attempts (r ∷ rs) ft = attempts rs (attempt r ft)

attempt-IsSound : (r : Request) (ft : FtShim) → IsSound ft → IsSound (attempt r ft)
unfolding attempt
attempt-IsSound (c, to, amount) ft s = elim (Result-cases (transfer c to amount ft)) [
  | inl (ft', e) ↦ rw (e, attempt) (transfer-IsSound c to amount ft s e)
  | inr (p, e) ↦ rw (e, attempt) s
]

transfers-IsSound : (rs : List Request) (ft : FtShim) → IsSound ft → IsSound (attempts rs ft)
unfolding attempts
transfers-IsSound [] ft s = s
transfers-IsSound (r ∷ rs) ft s = transfers-IsSound rs (attempt r ft) (attempt-IsSound r ft s)

attempts-total_supply :
    (rs : List Request) (ft : FtShim) → (attempts rs ft).total_supply ≡ ft.total_supply
unfolding attempts attempt transfer
attempts-total_supply [] ft = ground arith
attempts-total_supply (r ∷ rs) ft = ground (arith, attempts-total_supply rs (attempt r ft))

-- From `new` with a supply below 2 ^ 128 on, whatever calls are made, the balances add up to the minted
-- supply, and no balance exceeds it.
pub supply_conserved :
    (owner : AccountId) (supply : ℕ) (rs : List Request) (j : AccountId)
    → supply < u128_mod
    → (total (attempts rs (new owner supply)).balances ≡ supply)
      × (balance_of j (attempts rs (new owner supply)) ≤ supply)
unfolding balance_of
supply_conserved owner supply rs j h =
    (sum, omega (arith, sum, balance-le-total j (attempts rs (new owner supply)).balances))
  where
    sum : total (attempts rs (new owner supply)).balances ≡ supply
    sum =
        (transfers-IsSound rs _ (new-IsSound owner supply h)).conserved
        ∙ attempts-total_supply rs (new owner supply)
        ∙ unfold new in refl
