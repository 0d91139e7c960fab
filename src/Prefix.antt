-- ===== src/Prefix.antt =====
-- src/sglang_qsa_hisparse/hisparse/prefix.py: immutable host checkpoints under a byte budget.
-- The lock is left out: each method is one atomic call, as the lock makes it.
pub mod Defs
pub mod Cache
pub mod Space
pub mod Invariant
pub mod Moves
pub mod Room
pub mod Close
pub mod Publish
pub mod Reset
pub mod Acquire
pub mod World
pub mod Safety
pub mod Calls
pub mod Commits
pub mod History
pub mod Roundtrip
pub mod Pinned
mod Tests
