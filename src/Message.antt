-- ===== src/Message.antt =====
-- The messages between client and service (src/ser-helper.cc): data, serializers and parsers.
pub mod Data
pub mod RequestSerializer
pub mod ResponseSerializer
pub mod RequestParser
pub mod ResponseParser
pub mod MonitorParser
pub mod MonitorRoundTrip
pub mod Delivery
pub mod RequestRoundTrip
pub mod ResponseRoundTrip
