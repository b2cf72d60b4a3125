-- ===== src/Condition.antt =====
-- internal/condition: from raw sensor readings to the input of internal/compute.
pub mod Types
pub mod Groups
pub mod Preprocess
pub mod Integrity
pub mod Process
pub mod Sorted
mod Tests
