-- ===== src/Startup.antt =====
-- What decides, when a process starts, whether the plugin acts: features.py, scope.py, plugin.py,
-- fingerprint.py and hisparse/config.py under src/sglang_qsa_hisparse.
pub mod Switches
pub mod Scope
pub mod Pins
pub mod Config
mod Required
pub mod Accepts
mod Tests
