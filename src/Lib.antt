-- ===== src/Lib.antt =====
-- A verification library for the Python programs of the repository: the analysis of page dumps and
-- the runners that produce them. The C++ profiler, the gem5 configuration and the plots are not part
-- of it.
--
-- The analysis reads a dump of page records, one record per page and window, and works on it window by
-- window.
--   Trace          src/analysis/hotskew.py: the record (`Record` is `RECORD_DTYPE`, `words` its 64
--                  counters), `accesses` (`Run.accesses`), `popcount64` (`_popcount64`, with the byte
--                  table or numpy's own count). Trace/Load is `load_pages` with its checks; the file
--                  system and the summary's text are a `PagesFile`, already parsed.
--   Numpy          the numpy routines that the analysis calls (lexsort, argsort, unique, the k-th
--                  value, bitwise_count) as a record of operations and documented laws. It is an argument of
--                  every definition that calls them; Numpy/Reference is a concrete instance. `Float64`
--                  is the comparison of two curves in float64, with a bound on its rounding.
--   Placement      src/analysis/causal_placement.py: `choose`, `candidates`, `fixed_capacity`.
--   Study          src/analysis/placement_study.py: `load_tracker_topk` and `evaluate`.
--   Latency        src/analysis/latency_model.py: `evaluate`. Latencies and fractions are whole numbers
--                  or numerator and denominator; stall is in the unit of the latencies.
--   Turnover       src/analysis/hotset_turnover.py: `top_k_of_epoch` and `analyse`; a share is a
--                  numerator with its denominator.
--   Granularity    src/analysis/granularity_sweep.py: `coarsen_popcount`, `sweep_records` and `sweep`; a
--                  mean is the sum with the number of what it is taken of.
--   Recompute      src/analysis/revalidate_extensions.py. Recompute/Windows is `epochs`, the raw file
--                  read in blocks of 32768 records; Recompute/Checks, Recompute/Placing and
--                  Recompute/Tally are the loop of `analyse` (its checks, the placements, the state of
--                  the loop), and Recompute/Report the rest of it.
--   Curves         src/analysis/hotskew.py: the curves and shares of `Run` (`figure4_cdf`, `density`,
--                  `top_word_share`, `wasted_migration_bytes`). Curves/Summary is `load_summary`, a line
--                  being what Python's string functions find in it, and `figure4_from_summary`.
--   Histogram      src/analysis/plot_paired.py: `read_hist`.
--   WindowFit      src/analysis/window_fit.py: `cdf_at_merge`, `error_for` and the published values of
--                  src/analysis/hotskew.py; WindowFit/Main is `main`, with the loops over merge factors.
--   Crosscheck     the checks of finished runs. Crosscheck/Paired is `checked_histograms` of
--                  src/analysis/compare_reproduction.py, Crosscheck/Audit the audit of
--                  src/analysis/audit_results.py, Crosscheck/Simulator `validated_histogram` and
--                  `completed_job` of src/analysis/compare_simulator_m5.py and `check` of
--                  src/analysis/check_sim_calibration.py.
--
-- The runners keep their state in JSON files that are replaced as a whole; a state is a function from
-- the names of jobs to rows. Processes, clocks, locks and what is on disk are arguments: an outcome for
-- each job, a `World`, or a list of ticks.
--   Paired         experiments/run_paired.py: the checks of the options (`check_args`), the command and
--                  its edits (`command`). Paired/Store is the manifest, its reuse (`decide`) and the
--                  loop over the workloads (`run_workloads`).
--   Campaign       the loop over jobs that the campaigns share (`run_jobs`), with a turn that passes,
--                  finishes or stops. Campaign/Attempts is the search for an unused attempt directory,
--                  Campaign/Fidelity experiments/run_fidelity_campaign.py, Campaign/Revalidation
--                  experiments/revalidation_campaign.py and Campaign/Stage2
--                  experiments/run_pin_fidelity_stage2.py: each has the job list (`jobs`, `jobs_of`),
--                  the turn of a job (`turn`) and the whole campaign (`campaign`, `run_lane`).
--                  Campaign/Handover is experiments/resume_sim_after_fidelity.py (`hand_over`).
--   Checkpoint     experiments/checkpoint_sim.py, `run`: what a start goes on from (`start`) and the
--                  supervision (`tick`, `supervise`). Checkpoint/Files is its state directory.
--   Storage        experiments/migrate_raw_storage.py: `migrate`.
--   Extension      experiments/run_extension_workload.py: `command_of`, `run_workload`. The startup loop
--                  has the 120 tries of the source as its fuel.
--   Validation     experiments/validate_pin_scalability.py: `bounded`, `validate`.
--   RealInput      experiments/validate_pin_real_input.py: RealInput/Csr is `selected_nodes` and
--                  `induce`, RealInput/Runs the commands and cases, RealInput/Pilot `main`.
--   Profile        experiments/profile_pin_bottleneck.py: Profile/Parse is `category` and
--                  `parse_report`, Profile/Study `capture` and `main`.
--   Footprint      benchmarks/prepare_tc_footprint.py: `prepare_footprint`.
--   InputFamilies  benchmarks/prepare_fidelity_inputs.py: `collect` and `main` (`prepare_inputs`); which
--                  commands succeed, and the files that they write, are a `World`.
--   Gplus          benchmarks/prepare_gplus.py: `select_edges` and the conditions of publication.
--
-- Bounds. A mask is below 2 ^ 64 and page addresses of cells wrap at 2 ^ 64 as in the source; the
-- counts are numbers without a bound, as Python's are (numpy's float64 copies of them are exact below
-- 2 ^ 53, and the int64 sums of the recomputed extensions below 2 ^ 63; those of the hot-set turnover
-- wrap in the model too, `int64`). Besides that, the search for
-- an attempt directory has the largest number taken as its fuel: every taken number is at most that, so
-- the search has ended by then. A raw file is read with one round more than it has records, as a round
-- takes a record or is the last. The wait of `hand_over` has no bound in the source; its fuel is an
-- argument, and a wait that its fuel does not see end is `still_waiting`, which starts nothing.
--
-- Not modelled: floating-point rounding but in the audit's comparison, and output, plots, HTML and tables;
-- waits and signals in the campaigns, and publishing in the fidelity and Stage 2 campaigns; the validation report and the script
-- hashes of the simulator lane; the pause action of the checkpoint supervisor; the cross-checks of
-- published results (compare_sim.py, compare_to_paper.py) and the trial control.
--
-- Examples holds the theorems at concrete inputs, and tests.
pub mod Campaign
pub mod Checkpoint
pub mod Crosscheck
pub mod Curves
pub mod Examples
pub mod Extension
pub mod Footprint
pub mod Gplus
pub mod Granularity
pub mod Histogram
pub mod InputFamilies
pub mod Latency
pub mod Numpy
pub mod Paired
pub mod Placement
pub mod Prelude
pub mod Profile
pub mod RealInput
pub mod Recompute
pub mod Storage
pub mod Study
pub mod Trace
pub mod Turnover
pub mod Validation
pub mod WindowFit
