-- ===== src/Diff.antt =====
-- src/util/treediff.rs, by which layout trees are compared.
pub mod Lcs
pub mod Tree
