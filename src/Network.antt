-- ===== src/Network.antt =====
-- coc_framework/core/network_sim.py and the `DeletionEngine` of coc_framework/core/deletion_engine.py:
-- peers, the network between them, and the engine that they share.
pub mod World
pub mod Engine
pub mod Peers
pub mod Frame
pub mod Effect
pub mod Process
pub mod Authority
pub mod Reach
pub mod Received
pub mod Steps
mod Tests
