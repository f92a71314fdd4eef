-- ===== src/Url.antt =====
-- `HttpHeader::parse_url` of local/src/core/http.cc.
pub mod Parse
pub mod Find
pub mod Printed
pub mod Marks
pub mod Cuts
pub mod Pieces
pub mod Inverse
