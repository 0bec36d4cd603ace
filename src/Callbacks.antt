-- ===== src/Callbacks.antt =====
-- source/sessioncallbacks.cpp: the handlers that nghttp2 calls. Each of them returns 0 on every
-- path; the model returns the session after it. Stream ids are the 31-bit numbers of the protocol,
-- which the conversions between int32_t, uint32_t and size_t leave alone. Logging is left out.
pub mod Frame
pub mod Receive
pub mod Headers
pub mod Send
pub mod Trace
