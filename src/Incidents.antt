-- ===== src/Incidents.antt =====
-- The incident ledger of backend/app/incidents.py.
pub mod Row
pub mod Observe
pub mod Actions
pub mod Ledger
pub mod Sound
pub mod Silence
pub mod Sweep
pub mod Commit
pub mod Exact
mod Tests
pub mod Reads
