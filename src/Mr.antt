-- ===== src/Mr.antt =====
-- mr/: the coordinator of a MapReduce job (coordinator.go), the tasks of its workers (worker.go),
-- and the same in one process (mr-main/mrsequential.go).
pub mod Apps
pub mod Coordinator
pub mod Worker
pub mod Reducer
pub mod Lines
pub mod Sequential
pub mod Gather
pub mod Job
mod Examples
mod AppExamples
