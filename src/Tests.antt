-- ===== src/Tests.antt =====
-- Runs of the model on concrete inputs, and the theorems at inputs that meet their hypotheses.
mod Text
mod Rules
mod Fields
mod Chunk
mod Url
mod Session
mod Drain
mod Message
mod Transaction
mod Arguments
mod Localizer
mod Replay
