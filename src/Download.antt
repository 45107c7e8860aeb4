-- ===== src/Download.antt =====
-- pkg/download: the task manager.
pub mod Task
pub mod ExtractionQueue
mod Tests
pub mod Scheduler
