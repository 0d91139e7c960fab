-- ===== src/Restore.antt =====
-- prefix_cache.py: the host prefixes of requests in SGLang's disabled radix cache: a hit is matched,
-- admitted, restored into a request and, when the allocation fails, rolled back.
pub mod State
pub mod Hits
pub mod Drain
pub mod Rollback
mod Limits
mod Balance
mod Readers
mod Ends
mod Handover
mod Tests
