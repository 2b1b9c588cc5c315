-- ===== src/Crossings.antt =====
-- The enumeration of crossings in src/rtl_buddy_cdc/domain.py: `find_crossings` and its helpers.
pub mod Multi
pub mod Fanout
pub mod Walk
pub mod Group
pub mod Boundary
pub mod Prune
pub mod Find
