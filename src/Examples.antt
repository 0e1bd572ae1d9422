-- ===== src/Examples.antt =====
-- The theorems at concrete inputs, and tests.
mod Analysis
mod Runs
mod Supervision
mod Inputs
mod Records
mod Extensions
mod Candidates
mod Graphs
mod Recomputed
mod Summaries
mod Pilots
mod Crosschecks
mod Fits
mod Families
