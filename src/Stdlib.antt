-- ===== src/Stdlib.antt =====
-- What the program uses of Go's standard library: byte orders, hexadecimal text, addresses, and the
-- fields and the space of a text. The hash and the signatures of crypto/sha256 and crypto/ed25519
-- are a parameter, `Crypto`.
pub mod Binary
pub mod Hex
pub mod Crypto
pub mod Net
pub mod Ip
pub mod Fields
pub mod Trim
