-- ===== src/Queue.antt =====
-- The durable job queue of chess_crawl/jobs/state.py over its PostgreSQL tables.
pub mod Rows
pub mod Model
pub mod Write
pub mod Hints
pub mod Admission
pub mod Result
pub mod Enqueue
pub mod Dedup
pub mod Idempotence
pub mod Claim
pub mod Runs
pub mod Depth
pub mod Discovery
pub mod Attempts
pub mod Soundness
pub mod Reach
pub mod Roots
pub mod Examples
