-- ===== src/Gate.antt =====
-- contracts/gate/src: the sequencer gate, its state and its operations.
pub mod Types
pub mod State
pub mod Nonce
pub mod Admin
pub mod Fees
pub mod Submit
pub mod Chain
pub mod Callback
pub mod Views
pub mod Trace
pub mod Run
pub mod Tests
pub mod Suite
pub mod System
