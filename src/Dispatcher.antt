-- ===== src/Dispatcher.antt =====
-- `Dispatcher` (src/disp.cc): the state, its handlers, and what is proved of them.
pub mod State
pub mod Subscription
pub mod Client
pub mod Call
pub mod Handle
pub mod PendingOrder
pub mod Keeps
pub mod CallReturn
pub mod Orderly
pub mod CallOrder
pub mod Garbage
pub mod Names
pub mod Rounds
pub mod Reachable
pub mod Subscribers
pub mod Views
pub mod Posts
