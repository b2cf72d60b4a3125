-- ===== src/Compute.antt =====
-- internal/compute: the five technical indicators, the Health Factor and the RTPMV.
pub mod Types
pub mod Configs
pub mod Indicators
pub mod Bounds
pub mod Defaults
pub mod Aged
pub mod Valid
pub mod Value
pub mod Incentive
pub mod Tests
