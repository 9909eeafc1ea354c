-- ===== src/Audit.antt =====
-- The audit log, coc_framework/core/audit_log.py.
pub mod Chain
pub mod Evidence
pub mod File
pub mod FileLine
pub mod FileChain
pub mod FileBars
pub mod Event
mod Tests
mod FileTests
