-- ===== src/Message.antt =====
-- `HttpHeader` of local/include/core/http.h and local/src/core/http.cc: the message and its codec.
pub mod Defs
pub mod Text
pub mod Codec
pub mod Lines
pub mod Ending
pub mod Printed
pub mod Request
pub mod RoundTrip
