-- ===== src/Identity.antt =====
-- Identities and certificates, coc_framework/core/identity.py.
pub mod Certificate
pub mod Authority
pub mod Issue
pub mod Store
pub mod Holders
mod Tests
