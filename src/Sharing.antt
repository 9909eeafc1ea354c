-- ===== src/Sharing.antt =====
-- Secret sharing, coc_framework/core/secret_sharing.py.
pub mod Field
pub mod Fuel
pub mod Polynomial
pub mod Chunks
pub mod Joining
pub mod Share
pub mod Reconstruct
pub mod Integrity
pub mod Engine
pub mod Holders
mod Tests
