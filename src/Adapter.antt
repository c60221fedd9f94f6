-- ===== src/Adapter.antt =====
-- `AdapterInfo` (src/adap.h) and the receiving and sending ends of a connection to the service,
-- `SocketAdapter` (src/sock-adap.cc), with the read loop of `SocketPoll::do_read`
-- (src/sock-poll.cc).
pub mod Socket
pub mod Framing
pub mod Stream
pub mod Pump
