-- ===== src/Chunk.antt =====
-- `ChunkCodex` (local/include/core/http.h, local/src/core/http.cc): the chunked transfer coding.
pub mod Codex
pub mod Machine
pub mod Turns
pub mod Refines
pub mod Segments
pub mod Transmit
pub mod Wire
pub mod RoundTrip
