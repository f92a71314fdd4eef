-- ===== src/Localizer.antt =====
-- `Localizer` of local/include/core/Localizer.h and local/src/core/Localizer.cc.
pub mod Names
pub mod Lowering
pub mod Encoded
pub mod Decoding
