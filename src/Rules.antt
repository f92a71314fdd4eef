-- ===== src/Rules.antt =====
-- local/include/core/verification.h and local/src/core/verification.cc: the verification rules.
pub mod Defs
pub mod Factory
pub mod Search
pub mod Evaluate
pub mod Making
pub mod Matching
pub mod Deciding
pub mod Promise
pub mod Holding
pub mod Inverting
pub mod Reporting
