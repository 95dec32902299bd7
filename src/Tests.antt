-- ===== src/Tests.antt =====
-- Runs on concrete data: what the theorems say of them.
pub mod Queue
pub mod Chain
pub mod Poll
pub mod Answer
pub mod Link
pub mod Direct
pub mod Start
