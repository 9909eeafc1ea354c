-- ===== src/Gossip.antt =====
-- The gossip protocol, coc_framework/network/gossip.py.
pub mod Envelope
pub mod Cache
pub mod Node
pub mod Net
pub mod Admission
pub mod Window
pub mod Replay
pub mod Room
pub mod Upkeep
mod Tests
