-- ===== src/Protocol.antt =====
-- afkak/kafkacodec.py: the requests and the responses of the protocol.
pub mod Data
pub mod Grouping
pub mod Header
pub mod Topics
pub mod Requests
pub mod Responses
pub mod Arrays
pub mod Group
