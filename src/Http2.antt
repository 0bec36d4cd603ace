-- ===== src/Http2.antt =====
pub mod Token
pub mod Status
