-- ===== src/Entropy.antt =====
-- internal/entropy: the rANS coders and the bit coders.
pub mod RansDecoder
pub mod RansEncoder
pub mod Rans
pub mod RansBit
pub mod DirectBit
pub mod BitCoder
pub mod FoldedBit
pub mod ProbabilityTable
pub mod Probabilities
pub mod Symbols
pub mod SymbolEncoding
pub mod SymbolCoding
