-- ===== src/IncidentSync.antt =====
-- The mirroring of incidents to external systems, backend/app/incident_sync.py.
pub mod Adapters
pub mod Policy
pub mod Narrowing
pub mod Row
pub mod Records
pub mod Runs
pub mod Links
pub mod Mirrored
pub mod Checks
pub mod Verdicts
mod Tests
