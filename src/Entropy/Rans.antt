-- ===== src/Entropy/Rans.antt =====
-- The theorems on the rANS symbol coder of internal/entropy/rans.go and rans_encoder.go.
pub mod Renormalise
pub mod Step
pub mod RoundTrip
pub mod Tail
pub mod Lookup
pub mod Shares
pub mod Cache
pub mod Session
mod Tests
