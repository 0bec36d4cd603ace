-- ===== src/Message.antt =====
-- The messages of a stream: header fields, requests and responses.
pub mod Header
pub mod Request
pub mod Response
