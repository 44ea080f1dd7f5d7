-- ===== src/Webhooks.antt =====
-- Webhooks and alert delivery, backend/app/webhooks.py.
pub mod Row
pub mod Decision
pub mod Destinations
pub mod Configure
pub mod Occurrences
pub mod Routing
pub mod Preview
pub mod Delivery
pub mod Redrive
pub mod Reads
pub mod Health
pub mod Added
pub mod Conserve
pub mod Ledger
pub mod Attempt
pub mod Budget
pub mod Underway
pub mod Settle
pub mod Lineage
pub mod Stale
pub mod Cooldown
pub mod Recover
pub mod Configuration
pub mod Configured
pub mod Secrets
pub mod Totals
pub mod Lost
pub mod Muted
mod Samples
mod Tests
