-- ===== src/AgentWorkflow/Tests.antt =====
-- A workflow whose budget is spent on a failed push, and the theorems there.
use aira_agent.Base.{
  refl, ◌≡◌, ◌≤◌, String, none, some, [], ◌∷◌, false, arith, Bool, Option, List, true, first,
}
use aira_agent.AgentWorkflow.State.{AiraXStep, AiraXState, Memory, Output, Value, step_at, add_log}
use aira_agent.AgentWorkflow.Decision.{decided}
use aira_agent.AgentWorkflow.Loop.{Agents, execute_loop}
use aira_agent.AgentWorkflow.Budget.{SameBudget}
use aira_agent.AgentWorkflow.Stops.{with_execution}
use aira_agent.AgentWorkflow.Retries.{KeepsBudget, retries_bounded, must_stop-stops}
use aira_agent.AgentWorkflow.Validation.{
  validate, validate_step, latest_successful_execution_output, last_match, passed,
  build_validation_result,
}

abbrev lower : String → String
lower t = t

abbrev push : AiraXStep
push = record {
  id = 1;
  title = "Push";
  description = "Push the branch";
  status = "failed";
  assigned_agent = some "execution_agent";
  tool_name = some "git_tool";
  tool_action = some "push";
  result = none;
  error = some "rejected";
}

abbrev memory : Memory
memory = record {
  pending_action = "git push";
  approved_actions = [];
  current_tool_policy = record { risk_level = some "medium"; requires_approval = false };
  last_execution_error = none;
  reflections = [];
  latest_validation_result = none;
  validation_results = [];
  workflow_logs = [];
}

abbrev state : AiraXState
state = record {
  current_step = some 1;
  plan = push ∷ [];
  execution_outputs = [];
  memory = memory;
  decision = some "execution_failed";
  final_answer = none;
  retry_count = 3;
  max_retries = 3;
  status = "executing";
}

-- An execution agent that fails every step.
abbrev agents : Agents
agents = record {
  execution = λ s. decided "execution_failed" s;
  list_text = λ ts. "[]";
  build_final_answer = λ s. "done";
  build_failure_answer = λ s. "failed";
}

abbrev fresh : AiraXState
fresh = record state { retry_count = 1; decision = none }

-- A tool that has printed its answer after one that failed.
abbrev answer : Bool → Option Value → Output
answer success output = record {
  agent = some "execution_agent";
  tool_used = some "shell_tool";
  tool_action = none;
  success = success;
  output = output;
  stdout = none;
  stderr = some (Value.text "no such file");
  error = none;
}

abbrev answers : List Output
answers = answer false none ∷ answer true (some (Value.texts ("3" ∷ "files" ∷ []))) ∷ []

answers_validated :
    (validate
      (λ ts. "[]")
      (record fresh { execution_outputs = answers })).memory.latest_validation_result
    ≡ some "Validation passed. shell_tool:action completed successfully and produced usable output."
unfolding validate validate_step step_at latest_successful_execution_output last_match passed
    build_validation_result add_log decided first
answers_validated = refl

retries_bounded_example :
    ((execute_loop agents 4 fresh).0.retry_count ≤ 3)
    × ((execute_loop agents 4 fresh).0.max_retries ≡ 3)
retries_bounded_example =
    retries_bounded agents (unfold KeepsBudget SameBudget decided in λ s. (refl, refl)) 4 fresh
      (omega arith)

must_stop-stops_example :
    ((execute_loop agents 3 state).1 ≡ false)
    × ((execute_loop agents 3 state).0.retry_count ≡ 3)
    × (execute_loop (with_execution agents (λ s. s)) 3 state ≡ execute_loop agents 3 state)
must_stop-stops_example = must_stop-stops agents (λ s. s) 2 state refl
