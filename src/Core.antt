-- ===== src/Core.antt =====
-- internal/core: byte readers and writers, bit readers and writers, variable-length integers.
pub mod Words
pub mod Fields
pub mod Reader
pub mod Writer
pub mod Codec
pub mod BitReader
pub mod BitWriter
pub mod BitPacking
pub mod Varint
