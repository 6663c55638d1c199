-- ===== src/Example.antt =====
-- src/example: programs that use the scheduler.
pub mod ParallelSum
