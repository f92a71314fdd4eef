-- ===== src/Fields.antt =====
-- `HttpFields` and `HttpHeader::verify_headers` (local/include/core/http.h, local/src/core/http.cc).
pub mod Defs
pub mod Received
pub mod Verify
pub mod Verdict
