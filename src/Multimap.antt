-- ===== src/Multimap.antt =====
-- The ordered, case-insensitive multimap of the fields and rules.
pub mod Ops
pub mod Laws
