-- ===== src/Tests.antt =====
-- A small message library, and the theorems applied at concrete inputs.
mod SmallCaps
mod Requests
mod Responses
mod Streams
mod Services
mod Activity
mod Monitors
mod Histories
mod EndToEnd
mod Calls
mod Agents
mod Polls
