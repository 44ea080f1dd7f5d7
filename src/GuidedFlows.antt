-- ===== src/GuidedFlows.antt =====
-- The durable pending state of guided flows, backend/app/guided_flow_store.py.
pub mod Store
pub mod Race
pub mod Once
pub mod Single
pub mod Resume
mod Tests
