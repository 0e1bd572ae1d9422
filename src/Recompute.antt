-- ===== src/Recompute.antt =====
-- src/analysis/revalidate_extensions.py: the extensions recomputed from the raw records of a run.
pub mod Windows
pub mod Checks
pub mod Placing
pub mod Tally
pub mod Report
