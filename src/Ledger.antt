-- ===== src/Ledger.antt =====
-- measure_twice/ledger.py: the evidence ledger.
pub mod Source
pub mod Claim
pub mod Store
pub mod Audit
pub mod Render
