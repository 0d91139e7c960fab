-- ===== src/Coordinator.antt =====
-- src/sglang_qsa_hisparse/hisparse/coordinator.py: when the ranks of a tensor-parallel group let the
-- parked requests decode. Every rank has its own lease table; the collectives exchange votes.
pub mod Defs
pub mod Votes
pub mod Converge
pub mod Ready
pub mod Admit
mod Tests
