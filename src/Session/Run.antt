-- ===== src/Session/Run.antt =====
-- What comes of an operation with a loop over the socket.
-- It came to its end, a system call has not come back, the bound on its rounds is reached, an
-- assertion failed, or a span lies outside its buffer.
pub data Run {ℓ} (A : Type ℓ) : Type ℓ where
  returned : A → Run A
  blocked unfinished aborted out_of_bounds : Run A
