-- ===== src/Register/Tests.antt =====
-- The register (contracts/register/src/lib.rs) at concrete values.
use sequential_near.Prelude.{ℕ, ◌-◌, ◌≡◌, refl, List, [], ◌∷◌, ok, err, arith}
use sequential_near.Prelude.Word.{u32_mod}
use sequential_near.Register.{count_overflow, Register, default, set, get, reset, set_all}
use sequential_near.Register.Order.{get-set_all, get-set_all_injective, set_full}

get-set_all_example :
    (r : Register) × (set_all (3 ∷ 5 ∷ 9 ∷ []) default ≡ ok r) × (get r ≡ (9, 3 ∷ 5 ∷ 9 ∷ [], 3))
get-set_all_example = get-set_all (3 ∷ 5 ∷ 9 ∷ []) (omega arith)

abbrev four_two : Register
four_two = record { current = 2; log = 4 ∷ 2 ∷ []; set_count = 2 }

set_all-four_two : set_all (4 ∷ 2 ∷ []) default ≡ ok four_two
unfolding set_all set default
set_all-four_two = refl

get-set_all_injective_lem : ◌≡◌ {A = List ℕ} (4 ∷ 2 ∷ []) (4 ∷ 2 ∷ [])
get-set_all_injective_lem =
    get-set_all_injective (4 ∷ 2 ∷ []) (4 ∷ 2 ∷ []) set_all-four_two set_all-four_two refl

abbrev full : Register
full = record { current = 8; log = 8 ∷ []; set_count = u32_mod - 1 }

set_full_lem :
    (set 6 full ≡ err count_overflow)
    × ((s : Register) × (set 6 (reset full) ≡ ok s) × (get s ≡ (6, 6 ∷ [], 1)))
set_full_lem = set_full 6 full refl
