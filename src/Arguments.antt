-- ===== src/Arguments.antt =====
-- The command line: local/include/core/ArgParser.h and local/src/core/ArgParser.cc.
pub mod Data
pub mod Handling
pub mod Taking
