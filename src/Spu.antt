-- ===== src/Spu.antt =====
-- spu/src: the task manager that runs on an SPE and works on the queue that the host fills.
pub mod State
pub mod Stages
pub mod Transfers
pub mod Main
pub mod Programs
pub mod Series
pub mod Retire
pub mod Shift
pub mod Drain
mod Examples
