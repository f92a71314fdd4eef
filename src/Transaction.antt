-- ===== src/Transaction.antt =====
-- A transaction of a client over a session: `Session::write`, `Session::write_body` and
-- `Session::run_transaction` of local/src/core/http.cc.
pub mod Sending
pub mod Sent
pub mod Whole
pub mod Running
pub mod Response
pub mod Passing
pub mod Replaying
pub mod Looping
pub mod Replays
pub mod Receiving
