-- ===== src/Profiles.antt =====
-- measure_twice/model_sweep_execution.py: the execution profile that binds the models of a sweep.
pub mod Binding
pub mod Context
pub mod Whole
