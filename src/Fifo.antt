-- ===== src/Fifo.antt =====
-- src/spefifo.c: the host's side of the task queues, one queue for each SPE.
pub mod Port
pub mod Select
pub mod Submit
pub mod Collect
pub mod Queue
pub mod Tasks
pub mod Drained
pub mod Init
mod Examples
