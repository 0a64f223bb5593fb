-- ===== src/Runner.antt =====
-- measure_twice/runner.py: the rows of a run, the file that keeps them, and the passes over them.
pub mod Row
pub mod Store
pub mod Rescore
pub mod Sweep
pub mod Directory
pub mod Waves
pub mod Pending
pub mod Run
