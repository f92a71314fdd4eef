-- ===== src/Session.antt =====
-- `Session` of local/include/core/http.h and local/src/core/http.cc.
pub mod Errata
pub mod Run
pub mod Socket
pub mod Reading
pub mod Writing
pub mod Headers
pub mod HeaderEnd
pub mod Filling
