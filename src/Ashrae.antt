-- ===== src/Ashrae.antt =====
-- internal/ashrae: the buildings, the weather, and the engine that makes up their sensors.
pub mod Buildings
pub mod Weather
pub mod Sampling
pub mod Sensor
pub mod Tests
