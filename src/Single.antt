-- ===== src/Single.antt =====
-- single_request.py: the adapter that serves one request at a time and moves its raw keys and values to
-- the host between its prefill and its decode.
pub mod Rows
pub mod Chunks
pub mod State
pub mod Handoff
pub mod Batch
pub mod Calls
pub mod Selection
mod Handed
mod Stores
mod Invariant
mod History
mod Table
mod Columns
mod Compact
mod Decode
mod Passes
mod Serving
mod Handing
mod Tests
