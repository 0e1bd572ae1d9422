-- ===== src/Profile.antt =====
-- experiments/profile_pin_bottleneck.py: a sampled profile of the runs, its categories and the study.
pub mod Parse
pub mod Study
