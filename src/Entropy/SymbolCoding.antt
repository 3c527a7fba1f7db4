-- ===== src/Entropy/SymbolCoding.antt =====
-- Decoded symbols after encoded symbols, by scheme.
mod Scratch
mod Size
mod Table
mod Counts
mod Groups
mod Tagged
pub mod RoundTrip
mod Raw
mod Tests
