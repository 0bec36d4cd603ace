-- ===== src/Tls.antt =====
-- source/httptlssession.cpp, include/utilities.h: the methods and the body of a request, and the
-- choice of the protocol.
pub mod Method
pub mod Body
pub mod Alpn
