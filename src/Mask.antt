-- ===== src/Mask.antt =====
-- src/match.c: masks with the wild cards * and ?, and comparison without regard to case.
pub mod Spec
pub mod Match
pub mod Collapse
pub mod Compare
