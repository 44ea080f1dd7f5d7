-- ===== src/OpsPolicy.antt =====
-- backend/app/ops_policy.py: the health classification of jobs and the alerts made of it.
pub mod Classify
pub mod Health
pub mod Verdicts
pub mod Alerts
mod Tests
