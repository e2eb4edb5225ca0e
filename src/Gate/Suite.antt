-- ===== src/Gate/Suite.antt =====
-- What the unit tests of contracts/gate/src/lib.rs share: the accounts, the contexts, and a gate with a
-- relayer. The account of the contract is the test context's own.
pub mod Owner
pub mod Submissions
pub mod Resumes
pub mod Batches
pub mod Callbacks
pub mod Tiers
use sequential_near.Prelude.{ℕ, ◌∷◌, [], Result, ok, err, ◌>>=◌, false}
use sequential_near.Prelude.Suite.{Fault, Verdict, call}
use sequential_near.Host.{AccountId, Call, Text}
use sequential_near.Gate.Types.{CallbackArgs}
use sequential_near.Gate.State.{Gate, Panic, Done, new, state_of}
use sequential_near.Gate.Admin

abbrev pub owner : AccountId
owner = b'o' ∷ b'w' ∷ b'n' ∷ b'e' ∷ b'r' ∷ b'.' ∷ b't' ∷ b'e' ∷ b's' ∷ b't' ∷ []

abbrev pub approver : AccountId
approver =
    b'a' ∷ b'p' ∷ b'p' ∷ b'r' ∷ b'o' ∷ b'v' ∷ b'e' ∷ b'r' ∷ b'.' ∷ b't' ∷ b'e' ∷ b's' ∷ b't' ∷ []

abbrev pub relayer : AccountId
relayer = b'r' ∷ b'e' ∷ b'l' ∷ b'a' ∷ b'y' ∷ b'e' ∷ b'r' ∷ b'.' ∷ b't' ∷ b'e' ∷ b's' ∷ b't' ∷ []

abbrev pub alice : AccountId
alice = b'a' ∷ b'l' ∷ b'i' ∷ b'c' ∷ b'e' ∷ b'.' ∷ b't' ∷ b'e' ∷ b's' ∷ b't' ∷ []

abbrev pub target : AccountId
target =
    b'r' ∷ b'e' ∷ b'g' ∷ b'i' ∷ b's' ∷ b't' ∷ b'e' ∷ b'r' ∷ b'.' ∷ b't' ∷ b'e' ∷ b's' ∷ b't' ∷ []

abbrev me : AccountId
me = b'c' ∷ b'o' ∷ b'n' ∷ b't' ∷ b'r' ∷ b'a' ∷ b'c' ∷ b't' ∷ b'.' ∷ b't' ∷ b'e' ∷ b's' ∷ b't' ∷ []

-- The mock of the runtime cannot deliver a resume: `yield_id.resume` answers `Err` there.
abbrev pub with_ctx_paid : AccountId → ℕ → ℕ → Call
with_ctx_paid predecessor block_height deposit_yocto = record {
  predecessor = predecessor;
  current_account = me;
  block_height = block_height;
  attached_deposit = deposit_yocto;
  fresh_yield = 0;
  resumable = λ y. false;
}

abbrev pub with_ctx : AccountId → ℕ → Call
with_ctx predecessor block_height = with_ctx_paid predecessor block_height 0

abbrev pub with_ctx_private : ℕ → Call
with_ctx_private block = with_ctx me block

abbrev pub tier1_yocto : ℕ
tier1_yocto = 30_000_000_000_000_000_000_000

abbrev pub tier2_yocto : ℕ
tier2_yocto = 50_000_000_000_000_000_000_000

abbrev pub tier3_yocto : ℕ
tier3_yocto = 60_000_000_000_000_000_000_000

-- A call, for the state that it leaves.
abbrev pub run : {A : Type 0} → Result Panic (Done A) → Result (Fault Panic) Gate
run r = call (state_of r)

abbrev pub init_with_relayer : Result (Fault Panic) Gate
init_with_relayer = do
  let gate = new owner approver
  run (Admin.add_relayer (with_ctx owner 100) relayer gate)

abbrev pub sample_callback_args : ℕ → CallbackArgs
sample_callback_args intent_id = record {
  intent_id = intent_id;
  receiver = target;
  method = b's' ∷ b'e' ∷ b't' ∷ [];
  args =
      b'{' ∷ b'"' ∷ b'v' ∷ b'a' ∷ b'l' ∷ b'u' ∷ b'e' ∷ b'"' ∷ b':' ∷ b'"' ∷ b'4' ∷ b'2' ∷ b'"'
      ∷ b'}' ∷ [];
  deposit = 0;
  gas = 30_000_000_000_000;
}
