-- ===== src/Dnp3py.antt =====
-- The adapter over dnp3py, src/dnp3_gateway/adapters/dnp3_master.py. Wire is what dnp3py does with a
-- call, Direct the reads of ranges of points, Batch a session's read_batch, and Reader the sessions
-- of all devices.
pub mod Wire
pub mod Direct
pub mod Groups
pub mod Batch
pub mod Session
pub mod Reader
pub mod Chunks
pub mod Events
pub mod Baseline
pub mod Sessions
pub mod Lengths
