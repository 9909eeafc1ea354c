-- ===== src/Deletion.antt =====
-- coc_framework/core/deletion_engine.py, but for the engine itself, which stands with the peers and
-- the network that it works on (Network/Engine.antt).
pub mod Token
pub mod Cache
pub mod Replay
pub mod Tracker
pub mod Completion
mod Tests
