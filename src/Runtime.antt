-- ===== src/Runtime.antt =====
-- src/sglang_qsa_hisparse/hisparse/runtime.py, `release`, `after_release` and `after_logical_flush`:
-- how a request gives its lease back once its logical pages are freed.
pub mod Defs
pub mod Release
pub mod Flush
mod Tests
