-- ===== src/Spu/Drain.antt =====
-- The pipeline on a batch of tasks that add: the shared line and the task memory stay as they are.
pub mod Flight
pub mod Load
pub mod Round
pub mod Finish
