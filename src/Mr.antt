-- ===== src/Mr.antt =====
-- The MapReduce of mr/: the coordinator and what a worker does with the data.
pub mod Coordinator
pub mod Worker
pub mod Sequential
pub mod Apps
mod Examples
mod Jobs
