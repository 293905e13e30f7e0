-- ===== src/Pkg.antt =====
-- The packages under pkg/ that the tracker's logic calls.
pub mod Xorshift
