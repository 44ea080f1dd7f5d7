-- ===== src/AgentWorkflow/State.antt =====
-- `AiraXStep`, `AiraXState` and `WorkflowMemory.add_log`. Statuses and decisions are the texts that
-- the code compares; the memory has a field for each key that these agents use.
use aira_agent.Base.{
  ℕ, String, Option, none, some, List, [], ◌∷◌, ◌++◌, Bool, eqb, if◌then◌else◌, first,
}

pub record AiraXStep : Type 0 where
  pub id : ℕ
  pub title : String
  pub description : String
  pub status : String
  pub assigned_agent : Option String
  pub tool_name : Option String
  pub tool_action : Option String
  pub result : Option String
  pub error : Option String

-- What `reflect` appends to memory["reflections"].
pub record RetryNote : Type 0 where
  pub step_id : ℕ
  pub failed_step : String
  pub error : String
  pub retry_count : ℕ

-- memory["current_tool_policy"]
pub record ToolPolicy : Type 0 where
  pub risk_level : Option String
  pub requires_approval : Bool

-- An entry of memory["workflow_logs"], by its agent and event.
pub record Log : Type 0 where
  pub agent : String
  pub event : String

-- A value of a tool's answer: a text or a list of texts.
pub data Value : Type 0 where
  text : String → Value
  texts : List String → Value

-- An entry of execution_outputs, with the values of its tool_result.
pub record Output : Type 0 where
  pub agent : Option String
  pub tool_used : Option String
  pub tool_action : Option String
  pub success : Bool
  pub output : Option Value
  pub stdout : Option Value
  pub stderr : Option Value
  pub error : Option Value

-- An entry of memory["validation_results"].
pub record ValidationNote : Type 0 where
  pub step_id : ℕ
  pub step_title : String
  pub result : String
  pub tool_name : Option String
  pub tool_action : Option String

pub record Memory : Type 0 where
  pub pending_action : String
  pub approved_actions : List String
  pub current_tool_policy : ToolPolicy
  pub last_execution_error : Option String
  pub reflections : List RetryNote
  pub latest_validation_result : Option String
  pub validation_results : List ValidationNote
  pub workflow_logs : List Log

pub record AiraXState : Type 0 where
  pub current_step : Option ℕ
  pub plan : List AiraXStep
  pub execution_outputs : List Output
  pub memory : Memory
  pub decision : Option String
  pub final_answer : Option String
  pub retry_count : ℕ
  pub max_retries : ℕ
  pub status : String

-- next((step for step in plan if step.id == id), None)
unfoldable pub step_at : Option ℕ → List AiraXStep → Option AiraXStep
step_at none plan = none
step_at (some id) plan = first (λ s. eqb s.id id) plan

unfoldable pub current : AiraXState → Option AiraXStep
current s = step_at s.current_step s.plan

-- A write to the step that `step_at` found.
unfoldable pub write_step : ℕ → (AiraXStep → AiraXStep) → List AiraXStep → List AiraXStep
write_step id f [] = []
write_step id f (s ∷ plan) = if eqb s.id id then f s ∷ plan else s ∷ write_step id f plan

unfoldable pub add_log : String → String → AiraXState → AiraXState
add_log agent event s = record s {
  memory = record s.memory {
    workflow_logs = s.memory.workflow_logs ++ record { agent = agent; event = event } ∷ [];
  };
}
