-- ===== src/Poll.antt =====
-- The poll of TCP connections that closes the silent ones (src/beep-sock-poll.h).
pub mod Keepalive
pub mod Socket
pub mod Connections
pub mod Watching
pub mod Serving
pub mod Stopping
pub mod Stopped
pub mod Failures
pub mod Instance
pub mod Activity
pub mod Timeout
