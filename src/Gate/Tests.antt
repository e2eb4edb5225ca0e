-- ===== src/Gate/Tests.antt =====
-- Concrete callers, states and an implementation of the JSON layer for the tests of the gate
-- (contracts/gate/src).
pub mod Fees
pub mod Submit
pub mod Chain
pub mod Trace
pub mod System
pub mod Batch
use sequential_near.Prelude.{
  ◌+◌, ℕ, ◌≡◌, refl, ap, ◌∙◌, sym, Bool, true, false, Option, none, some, List, [], ◌∷◌, ◌++◌,
  Result, ok, err, length, nat_eq, if◌then◌else◌,
}
use mathlib.Core.Path.{subst}
use sequential_near.Prelude.Map.{Map}
use sequential_near.Host.{Bytes, AccountId, YieldId, Call}
use sequential_near.Borsh.{IoError, read_exact}
use sequential_near.Borsh.Laws.{read_exact-append}
use sequential_near.Gate.Types.{PendingIntent, ResumeSignal, CallbackArgs, Json, JsonLaws}
use sequential_near.Gate.State.{Gate, new}

-- An option as two numbers.
abbrev opt_write : Option ℕ → Bytes
opt_write none = 0 ∷ 0 ∷ []
opt_write (some n) = 1 ∷ n ∷ []

abbrev opt_read : ℕ → ℕ → Option ℕ
opt_read tag n = if nat_eq tag 1 then some n else none

abbrev bit : Bool → ℕ
bit true = 1
bit false = 0

abbrev write_signal : ResumeSignal → Bytes
write_signal s = bit s.approve ∷ (opt_write s.sequence_number ++ opt_write s.next_intent_id)

abbrev read_signal : Bytes → Option ResumeSignal
read_signal (a ∷ b ∷ c ∷ d ∷ e ∷ []) =
    some (record {
      approve = nat_eq a 1;
      sequence_number = opt_read b c;
      next_intent_id = opt_read d e;
    })
read_signal _ = none

signal_round :
    (approve : Bool) (seq next : Option ℕ)
    → read_signal (bit approve ∷ (opt_write seq ++ opt_write next))
      ≡ some (record { approve = approve; sequence_number = seq; next_intent_id = next })
signal_round true none none = refl
signal_round true none (some n) = refl
signal_round true (some s) none = refl
signal_round true (some s) (some n) = refl
signal_round false none none = refl
signal_round false none (some n) = refl
signal_round false (some s) none = refl
signal_round false (some s) (some n) = refl

-- The numbers and two lengths, then the three texts.
abbrev write_args : CallbackArgs → Bytes
write_args a =
    a.intent_id
    ∷ a.deposit
    ∷ a.gas
    ∷ length a.receiver
    ∷ length a.method
    ∷ (a.receiver ++ (a.method ++ a.args))

abbrev args_parts : ℕ → ℕ → ℕ → Bytes → Result IoError (Bytes × Bytes) → Option CallbackArgs
args_parts id deposit gas receiver (ok (method, args)) = some (record {
  intent_id = id;
  receiver = receiver;
  method = method;
  args = args;
  deposit = deposit;
  gas = gas;
})
args_parts id deposit gas receiver (err e) = none

abbrev args_rest : ℕ → ℕ → ℕ → ℕ → Result IoError (Bytes × Bytes) → Option CallbackArgs
args_rest id deposit gas m (ok (receiver, bs)) =
    args_parts id deposit gas receiver (read_exact m bs)
args_rest id deposit gas m (err e) = none

abbrev read_args : Bytes → Option CallbackArgs
read_args (id ∷ deposit ∷ gas ∷ r ∷ m ∷ bs) = args_rest id deposit gas m (read_exact r bs)
read_args _ = none

args_round : (a : CallbackArgs) → read_args (write_args a) ≡ some a
args_round a =
    ap (args_rest a.intent_id a.deposit a.gas (length a.method))
      (read_exact-append a.receiver (a.method ++ a.args))
    ∙ ap (args_parts a.intent_id a.deposit a.gas a.receiver) (read_exact-append a.method a.args)

abbrev pub json : Json
json = record {
  args_to_vec = λ a. some (write_args a);
  args_from_slice = read_args;
  signal_to_vec = λ s. some (write_signal s);
  signal_from_slice = read_signal;
}

some-injective : {bs cs : Bytes} → ◌≡◌ {A = Option Bytes} (some bs) (some cs) → bs ≡ cs
some-injective e = cc

pub json_laws : JsonLaws json
json_laws = record {
  args_law = λ a bs h. subst (λ x. read_args x ≡ some a) (some-injective h) (args_round a);
  signal_law = λ s bs h.
      subst (λ x. read_signal x ≡ some s) (some-injective h)
        (signal_round s.approve s.sequence_number s.next_intent_id);
}

pub json_packs : (s : ResumeSignal) → (bytes : Bytes) × (json.signal_to_vec s ≡ some bytes)
json_packs s = (write_signal s, refl)

abbrev pub owner : AccountId
owner = b'o' ∷ b'w' ∷ []

abbrev pub approver : AccountId
approver = b'a' ∷ b'p' ∷ []

abbrev pub relayer : AccountId
relayer = b'r' ∷ b'l' ∷ []

abbrev pub gate_account : AccountId
gate_account = b'g' ∷ b't' ∷ []

-- Only the approver pays: the other methods are not `#[payable]`.
abbrev pub deposit_of : AccountId → ℕ
deposit_of (a ∷ p ∷ []) = if nat_eq p b'p' then 100_000_000_000_000_000_000_000 else 0
deposit_of who = 0

-- A call at a time when these yields wait.
abbrev pub served_call : AccountId → (YieldId → Bool) → Call
served_call who alive = record {
  predecessor = who;
  current_account = gate_account;
  block_height = 100;
  attached_deposit = deposit_of who;
  fresh_yield = 7;
  resumable = alive;
}

abbrev pub call_by : AccountId → Call
call_by who = served_call who (λ y. true)

abbrev pub fresh : Gate
fresh = new owner approver

abbrev pub with_relayer : Gate
with_relayer = record fresh { relayers = (relayer, tt) ∷ [] }

abbrev pub intent : ℕ → PendingIntent
intent id = record {
  yield_id = 50 + id;
  sender = b'a' ∷ b'l' ∷ [];
  receiver_id = b'r' ∷ b'e' ∷ b'g' ∷ [];
  method = b's' ∷ b'e' ∷ b't' ∷ [];
  args = (b'0' + id) ∷ [];
  deposit = 0;
  gas = 30_000_000_000_000;
  nonce = 10 + id;
  expires_at_block = 500;
  submitted_at_block = 90;
}

-- Two intents wait.
abbrev pub two_pending : Gate
two_pending = record with_relayer {
  pending = (0, intent 0) ∷ (1, intent 1) ∷ [];
  next_intent_id = 2;
  intents_submitted = 2;
}
