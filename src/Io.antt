-- ===== src/Io.antt =====
-- The queues of requests between the dispatcher and the I/O workers.
pub mod Queue
pub mod Workers
