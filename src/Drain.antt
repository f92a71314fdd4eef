-- ===== src/Drain.antt =====
-- `Session::drain_body` and `drain_body_internal` of local/src/core/http.cc.
pub mod Body
pub mod Length
pub mod Bounds
pub mod Chunked
pub mod ChunkLoop
pub mod Buffer
pub mod Whole
pub mod WholeChunked
