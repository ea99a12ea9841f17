-- ===== src/Go.antt =====
-- What the code uses of the Go language and its standard library: error values, panics, paths,
-- decimal numbers, base64.
pub mod Errors
pub mod Path
pub mod Decimal
pub mod Base64
