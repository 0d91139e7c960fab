-- ===== src/Patching.antt =====
-- src/sglang_qsa_hisparse/patching.py: which declared hooks may stand together, and what the check
-- after the activation guarantees.
pub mod Names
pub mod Collect
pub mod Final
pub mod Guarantees
pub mod Conflicts
mod Tests
