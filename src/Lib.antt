-- ===== src/Lib.antt =====
-- Verification of the three NEAR contracts of this repository: the sequencer gate (contracts/gate),
-- which holds signed NEP-366 delegates under yields until an approver releases them, alone or as an
-- ordered batch, and its two demo targets (contracts/register, contracts/ft-shim), on which the order
-- of the calls can be seen.
--
-- The parts, and where they are modelled:
--
-- - Prelude: the library's names that are used throughout, Boolean tests, lists, the outcome of a call
--   (`Result`), storage maps as association lists, and Rust's unsigned integers. The workspace builds
--   with `overflow-checks = true` (Cargo.toml), so that `+=` is an addition that panics.
-- - Host: what a call reads from `env`. One `Call` is one execution of a method by the runtime.
-- - Borsh: the borsh crate's primitives as a parameter, with the laws that borsh documents (`BorshLaws`);
--   Borsh/Laws has the lemmas on readers; Borsh/Little is an instance that has the laws.
-- - Nep366: contracts/gate/src/nep366.rs, one writer and one reader for each type, `signed_message_hash`,
--   `verify`, `require_single_function_call`. Nep366/Fields and Nep366/RoundTrip prove that reading and
--   writing are inverse, Nep366/Rejects and Nep366/Truncated what is refused, Nep366/Signing what a
--   signature covers.
-- - Gate: contracts/gate/src/lib.rs and types.rs. Gate/Types and Gate/State hold the data: the record
--   `Gate` is the contract's state, field by field; a `Handler` takes it and answers an error, which is
--   a panic that reverts the call, or a `Done` with the result, the new state, the trace, and the yields
--   that were resumed with their payloads. Each method is a function of the source's name: Gate/Admin
--   (`add_relayer`, `remove_relayer`, `set_approver`, `reset_batch_tail`), Gate/Fees (`set_fee_tiers`,
--   `withdraw_fees`, `fee_for`, `charge_fee`), Gate/Submit (`submit_intent`), Gate/Chain
--   (`resume_intent`, `resume_batch_chained`, `continue_chain`), Gate/Callback (`on_intent_resumed`) and
--   Gate/Views. Gate/Nonce is the key of the replay protection.
-- - Gate/Trace: any sequence of calls by any callers, where a call that panics changes nothing.
--   Gate/Trace/Effects classifies what a call may change; Keep, Sound, Replay, Roles and Stuck use it,
--   Queue follows the tail of a batch, and Widths the widths of the integers.
-- - Gate/Run: a batch from link to link. The gate resumes a yield with a payload; the runtime then calls
--   `on_intent_resumed` with the arguments that it holds for the yield; what that returns with `.then`
--   calls `continue_chain`, which resumes the next yield. Gate/Run/Order follows a batch to its
--   end, Gate/Run/Bound bounds any run, and Gate/Run/Target executes the calls of a run on the register.
-- - Gate/System: the gate in the runtime, with calls of anybody at any time. The state is the gate, the
--   yields that wait, the callbacks and the links that are due, and, to state theorems, the intents that
--   have ended and the ids that were named for approval. `Step` is one call of another account or one
--   step of the runtime (`Move`): a yield runs out, any due callback or link goes through or panics.
--   Changes, Woken and Origins say what a step changes; Places and Once where an intent is; Yields what a
--   resume wakes; Approvals and Authority what is dispatched, and on whose word; Backed, Single, InFlight,
--   Progress and Order the one link of a batch that is under way, and the order of the batch; Numbers,
--   Drain, Ends and Dispatches how all of it ends.
-- - Register and FtShim: the two targets, whole.
-- - The modules named Tests hold concrete inputs.
-- - The modules named Suite are the unit tests of the crates, statement by statement (Prelude/Suite has
--   `assert_eq!` and the like); the model passes each of them, and panics where `should_panic` says so.
--   Six tests of contracts/gate/src/lib.rs are left out: they catch the panic of the mock's
--   `yield_id.resume` and read what the call had written before it, which a panic reverts.
--
-- Parameters stand for the code that is not in the repository: near-sdk's `env` (`Call`, with the handle
-- of a new yield and whether a yield is still alive), borsh (`Borsh`), serde_json (`Json`, with the law
-- `JsonLaws` that what is written reads back), and the host's `sha256` and `ed25519_verify` (`Crypto`).
-- Account ids and texts are byte strings; the integers are natural numbers, with the width checked where
-- the source adds. `intent_ids.len() as u32` wraps as in Rust.
--
-- The decimal digits of a nonce take fuel 20, which every `u64` fits in. `run_chain` takes fuel for the
-- number of links; a batch needs one for each of its ids, and the theorem on it asks for no more.
--
-- Gate/System asks of the runtime what near-sdk documents: a call resumes exactly the yields that wait, a
-- yield is answered once, by its resume or its timeout, handles are fresh, and `#[private]` methods are
-- called for the gate only through its own yields and `.then`. So a dispatched call is another account's
-- to run: an intent whose receiver is the gate itself is outside of Gate/System. Its theorem that every
-- intent ends asks for fewer than 2 ^ 32 submissions, since a chain's number is a `u32`.
--
-- Not modelled: what near-sdk generates around a method but for `#[private]`: it reads the
-- arguments, and it refuses a deposit where the method is not `#[payable]` (of the gate's,
-- `resume_intent` and `resume_batch_chained` are). A method is modelled as its body, so that the
-- theorems on when a call goes through leave that refusal out; Gate/Run/Target has it, since there
-- the deposit is the signer's. Not modelled either: the text of panic messages and of trace lines
-- beyond their fields, gas, storage staking and account balances, the storage layout behind the
-- maps (`list_pending` answers in the order of the model's map, where `IterableMap` promises none
-- after a removal), and the TypeScript under scripts/, which deploys the contracts and talks to
-- them over RPC.
pub mod Prelude
pub mod Host
pub mod Borsh
pub mod Nep366
pub mod Gate
pub mod Register
pub mod FtShim
