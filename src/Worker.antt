-- ===== src/Worker.antt =====
-- apps/worker: the processes that feed triggers to functions.
pub mod QueueConsumer
