-- ===== src/Process.antt =====
-- kernel/process: the queue of processes that are ready to run.
pub mod Queue
