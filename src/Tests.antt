-- ===== src/Tests.antt =====
-- Tests on concrete inputs, and the theorems applied at inputs that meet their hypotheses.
mod Ledger
mod Scoring
mod Runner
mod Sweeps
mod Judge
mod Suite
mod Directory
mod Entry
mod Agent
mod Profile
mod Binding
