-- ===== src/Video.antt =====
-- src/modules/video-interview: recorded interviews, from the session to its evaluation and its deletion.
-- Tables has the rows, Sessions the service and Processor the jobs of the queue.
pub mod Tables
pub mod Sessions
pub mod Processor
mod Tests
