-- ===== src/Agent.antt =====
-- The agent, which keeps a client connected (src/flora-agent.cc).
pub mod Interface
pub mod Served
pub mod State
pub mod Options
pub mod Run
pub mod Mirror
pub mod Handlers
pub mod Requests
pub mod Steps
pub mod Histories
pub mod Reconnect
pub mod Races
pub mod Sends
pub mod Silent
pub mod Clients
pub mod Mirrored
