-- ===== src/Availability.antt =====
-- src/modules/interview-planner: availability slots and interviews of employers and candidates.
pub mod Overlap
pub mod Slots
pub mod Search
mod Tests
