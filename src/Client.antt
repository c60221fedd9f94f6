-- ===== src/Client.antt =====
-- The client (src/cli.cc): its requests, what the service makes of them, and what it makes of the
-- messages that it receives.
pub mod Requests
pub mod Service
pub mod State
pub mod Handlers
pub mod Receive
pub mod Calls
pub mod Answers
pub mod Callbacks
pub mod Quiet
pub mod Placing
pub mod Consistent
pub mod Histories
pub mod Closing
pub mod Replies
pub mod Answered
pub mod Authorized
pub mod Reply
pub mod Tags
pub mod Returns
pub mod Stream
pub mod Loop
