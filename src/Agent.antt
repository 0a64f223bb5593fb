-- ===== src/Agent.antt =====
-- measure_twice/agent_bench: the strict inputs of the coding-agent benchmark.
pub mod Wire
pub mod Canonical
pub mod Scope
pub mod Decision
pub mod Analysis
pub mod Models
pub mod Profile
pub mod Ceilings
pub mod Execution
