-- ===== src/Js.antt =====
-- include/jsfunctions.h: URI components and base64.
pub mod Base64
pub mod Uri
