-- ===== src/Sync.antt =====
-- internal/sync: the digital twin of one property, and the goroutines around it.
pub mod Types
pub mod Evolution
pub mod Machine
mod Tests
