-- ===== src/Validation.antt =====
-- The validators, coc_framework/core/validation.py.
pub mod Value
pub mod Outcome
pub mod Formats
pub mod Event
pub mod Scenario
pub mod Rules
pub mod Grammar
pub mod WellFormed
pub mod Tables
pub mod Verdict
pub mod Hashes
pub mod Consistent
pub mod Events
mod Tests
