-- ===== src/Layout.antt =====
-- src/sglang_qsa_hisparse/hisparse/layout.py: the rows of a record of four tokens and their way back.
pub mod Defs
pub mod Unpack
mod Tests
