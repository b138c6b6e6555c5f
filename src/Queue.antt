-- ===== src/Queue.antt =====
-- internal/queue/model and internal/policy: the queue of a waiting room.
pub mod Policy
pub mod Model
