-- ===== src/Network.antt =====
-- room/inference_network.py: the sealed network of the agents, as docker commands.
pub mod Docker
pub mod Chains
pub mod Services
pub mod Outcomes
pub mod Added
pub mod Closed
pub mod Cleanup
