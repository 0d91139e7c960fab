-- ===== src/Slots.antt =====
-- src/sglang_qsa_hisparse/hisparse/slots.py: the physical prefill lane and the decode leases.
-- Request slots, generations and positions are natural numbers: a value below zero, which the
-- source's guards reject beside zero, is not representable. Events of the device are given by what
-- `query` and `synchronize` answer.
pub mod Defs
pub mod Moves
pub mod Invariant
pub mod Geometry
pub mod Lifecycle
pub mod Runs
pub mod Stale
pub mod Service
mod Tests
