-- ===== src/SessionUtil.antt =====
-- include/sessionutil.h: numbers as text, percent decoding, and the parts of a request.
pub mod Number
pub mod Percent
