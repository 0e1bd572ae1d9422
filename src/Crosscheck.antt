-- ===== src/Crosscheck.antt =====
-- The checks of finished runs: src/analysis/compare_reproduction.py, src/analysis/audit_results.py,
-- src/analysis/compare_simulator_m5.py and src/analysis/check_sim_calibration.py.
pub mod Paired
pub mod Audit
pub mod Simulator
