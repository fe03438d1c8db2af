-- ===== src/Layout.antt =====
-- layout/: the rows that formulas read and are read by.
pub mod Adjacency
mod Examples
