-- ===== src/RealInput.antt =====
-- experiments/validate_pin_real_input.py: the candidate build on a part of a real graph.
pub mod Csr
pub mod Runs
pub mod Pilot
