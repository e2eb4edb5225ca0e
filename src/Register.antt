-- ===== src/Register.antt =====
-- contracts/register/src/lib.rs: the last-writer-wins register with a log of every `set`.
pub mod Order
pub mod Tests
pub mod Suite
use sequential_near.Prelude.{ℕ, ◌+◌, List, [], ◌∷◌, ◌++◌, Result, ok, ◌>>=◌, or_panic}
use sequential_near.Prelude.Word.{u32_mod, checked_add}

-- The panics of this contract: `set_count += 1` on a `u32`.
pub data Panic : Type 0 where
  count_overflow : Panic

pub record Register : Type 0 where
  pub current : ℕ
  pub log : List ℕ
  pub set_count : ℕ

-- `Register::default()`
pub default : Register
default = record { current = 0; log = []; set_count = 0 }

-- `Register::set`; its `env::log_str` line is a trace only.
pub set : ℕ → Register → Result Panic Register
set value r = do
  count ← or_panic (checked_add u32_mod r.set_count 1) count_overflow
  ok (record { current = value; log = r.log ++ (value ∷ []); set_count = count })

-- `Register::get`
unfoldable pub get : Register → ℕ × List ℕ × ℕ
get r = (r.current, r.log, r.set_count)

-- `Register::reset`
pub reset : Register → Register
reset r = record { current = 0; log = []; set_count = 0 }

-- A sequence of `set` calls, in the order in which they are executed.
unfoldable pub set_all : List ℕ → Register → Result Panic Register
set_all [] r = ok r
set_all (v ∷ vs) r = do r' ← set v r; set_all vs r'
