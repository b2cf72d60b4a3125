-- ===== src/Cryptochain.antt =====
-- internal/cryptochain: the hash-linked ledger of valuation tokens.
pub mod Types
pub mod Hasher
pub mod Chain
pub mod Verify
mod Tests
