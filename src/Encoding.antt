-- ===== src/Encoding.antt =====
-- The encodings of Go's standard library that the program sends through: UTF-8, base64, JSON.
pub mod Utf8
pub mod Base64
pub mod Json
