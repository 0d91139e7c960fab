-- ===== src/Image.antt =====
-- src/sglang_qsa_hisparse/hisparse/image_identity.py and image_request.py: which images a host
-- prefix was computed from.
pub mod Defs
pub mod Keys
pub mod Sound
pub mod Requests
pub mod Cuts
pub mod Eligible
mod Tests
