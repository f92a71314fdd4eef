-- ===== src/Replay.antt =====
-- The reading of replay files: local/src/core/YamlParser.cc and local/include/core/YamlParser.h.
pub mod Yaml
pub mod Rules
pub mod FieldRules
pub mod FieldsKept
pub mod Accepting
pub mod Pseudo
pub mod PseudoKinds
pub mod Populate
pub mod Content
pub mod Tables
pub mod Keeping
pub mod Populated
pub mod Load
pub mod Protocol
pub mod Listing
pub mod Loading
pub mod Sessions
pub mod FieldSteps
pub mod Accepted
pub mod PseudoSteps
pub mod Faultless
pub mod Passing
