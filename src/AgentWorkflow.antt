-- ===== src/AgentWorkflow.antt =====
-- The agents of the workflow graph that decide without a language model: backend/agents/decision,
-- backend/agents/reflection, backend/agents/validation, backend/agents/safety and
-- backend/agents/approval, on the state of backend/schemas/aira_state.py, and the loop of
-- backend/graph/aira_workflow.py that runs them.
pub mod State
pub mod Decision
pub mod Validation
pub mod Gates
pub mod Loop
pub mod Stops
pub mod Budget
pub mod Retries
mod Tests
