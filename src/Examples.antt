-- ===== src/Examples.antt =====
-- Concrete data, and runs of the models on it.
pub mod Data
pub mod Grants
pub mod Endpoint
pub mod Checks
pub mod Nodes
pub mod Clients
pub mod Policies
pub mod Refresh
pub mod Managed
pub mod Clientauth
pub mod Tokens
pub mod Claimed
pub mod Messages
