-- ===== src/TimeLock.antt =====
-- Time locks, coc_framework/core/timelock.py.
pub mod KeyStore
pub mod Engine
pub mod Life
pub mod Runs
pub mod Simulated
mod Tests
