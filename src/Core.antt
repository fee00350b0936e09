-- ===== src/Core.antt =====
-- The platform services under `core/`.
pub mod Merkle
pub mod Audit
pub mod Idempotency
