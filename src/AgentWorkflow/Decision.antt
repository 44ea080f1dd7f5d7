-- ===== src/AgentWorkflow/Decision.antt =====
-- `DecisionAgent.run` of backend/agents/decision/decision_agent.py and `ReflectionAgent.run` of
-- backend/agents/reflection/reflection_agent.py: each early return is one function, and what follows
-- it is the next.
use aira_agent.Base.{
  ℕ, ◌+◌, String, Option, none, some, List, [], ◌∷◌, ◌++◌, Bool, ◌&&◌, ◌||◌, leb, ◌==◌,
  if◌then◌else◌, is_text, truthy, or_text,
}
use aira_agent.Base.Text.{contains_text}
use aira_agent.AgentWorkflow.State.{
  AiraXStep, AiraXState, RetryNote, Memory, step_at, current, write_step, add_log,
}

unfoldable pub decided : String → AiraXState → AiraXState
decided d s = record s { decision = some d }

-- The step after the current one. Without a current step there is none; the code would raise a
-- TypeError on `None + 1` if a state without one were marked as validated.
unfoldable pub next_step : AiraXState → Option AiraXStep
next_step s = elim s.current_step [ none ↦ none | some id ↦ step_at (some (id + 1)) s.plan ]

unfoldable pub advance : Option AiraXStep → AiraXState → AiraXState
advance none s = decided "validate_final_result" s
advance (some n) s = decided "continue_workflow" (record s { current_step = some n.id })

unfoldable pub advance_validated : Option AiraXStep → AiraXState → AiraXState
advance_validated none s = decided "validate_final_result" s
advance_validated (some n) s =
    decided "continue_workflow" (record s { current_step = some n.id; status = "executing" })

-- a pending step, by the agent it is assigned to
unfoldable pub decide_pending : AiraXStep → AiraXState → AiraXState
decide_pending c s =
    if is_text c.assigned_agent "planner_agent"
    then decided "run_planner" s
    else if is_text c.assigned_agent "execution_agent"
    then decided "run_execution" s
    else if is_text c.assigned_agent "validation_agent"
    then decided "run_validation" s
    else if is_text c.assigned_agent "decision_agent"
    then decided "run_tool" s
    else s

-- the last part of `run`: no step, or one that is pending, completed or failed
unfoldable pub decide_step : Option AiraXStep → AiraXState → AiraXState
unfolding advance decide_pending
decide_step none s = decided "finish" s
decide_step (some c) s =
    if c.status == "pending"
    then decide_pending c s
    else if c.status == "completed"
    then (if is_text c.assigned_agent "execution_agent"
        then decided "run_validation" s
        else advance (next_step s) s)
    else if c.status == "failed"
    then decided "reflect_and_retry" s
    else s

unfoldable pub decide_progress : AiraXState → AiraXState
unfolding advance_validated
decide_progress s =
    if is_text s.decision "retry_prepared"
    then decided "run_execution" s
    else if is_text s.decision "validation_success" || s.status == "validated"
    then advance_validated (next_step s) s
    else decide_step (current s) s

-- (memory's last_execution_error) or a fixed text, where the step has no error of its own
spent_step : Memory → AiraXStep → AiraXStep
spent_step m c = record c {
  status = "failed";
  error =
      if truthy c.error
      then c.error
      else some (or_text m.last_execution_error "Workflow failed after maximum retries.");
}

unfoldable pub write_current : (AiraXStep → AiraXStep) → AiraXState → List AiraXStep
write_current f s = elim s.current_step [ none ↦ s.plan | some id ↦ write_step id f s.plan ]

unfoldable pub decide_retries : AiraXState → AiraXState
unfolding spent_step write_current
decide_retries s =
    if leb s.max_retries s.retry_count
    then decided "stop_max_retries" (record s { plan = write_current (spent_step s.memory) s })
    else decide_progress s

-- `stage_all`, `commit` and `push` of the git tool
unfoldable pub is_git_write : AiraXStep → Bool
is_git_write c =
    is_text c.tool_name "git_tool"
    && (is_text c.tool_action "stage_all"
        || is_text c.tool_action "commit"
        || is_text c.tool_action "push")

unfoldable pub is_blocked : AiraXStep → Bool
is_blocked c = truthy c.error && contains_text "Unsafe action blocked" (or_text c.error "")

unfoldable pub decide_current : Option AiraXStep → AiraXState → AiraXState
decide_current none s = decide_retries s
decide_current (some c) s =
    if is_blocked c
    then decided "stop_safety_block" (record s { status = "failed"; final_answer = c.error })
    else if c.status == "failed" && is_git_write c
    then decided "stop_non_retryable_failure" (record s {
      status = "failed";
      final_answer =
          some (or_text c.error "Git write action failed and will not be retried automatically.");
    })
    else decide_retries s

unfoldable pub decide : AiraXState → AiraXState
decide s =
    if is_text s.decision "approval_required" || s.status == "requires_approval"
    then decided "stop_approval_required" s
    else decide_current (current s) s

reset_step : AiraXStep → AiraXStep
reset_step c = record c { status = "pending"; error = none }

unfoldable pub reflect_step : Option AiraXStep → ℕ → AiraXState → AiraXState
unfolding reset_step
reflect_step none id s = decided "reflection_failed_step_missing" (record s { status = "failed" })
reflect_step (some c) id s =
    let n = s.retry_count + 1 in
    let note : RetryNote = record {
      step_id = c.id;
      failed_step = c.title;
      error = or_text c.error "Unknown error";
      retry_count = n;
    } in
    let noted : AiraXState = record s {
      memory = record s.memory { reflections = s.memory.reflections ++ note ∷ [] };
    } in
    let logged = add_log "reflection_agent" "reflection_completed" noted in
    decided "retry_prepared" (record logged {
      retry_count = n;
      plan = write_step id reset_step s.plan;
      status = "reflecting";
    })

unfoldable pub reflect : AiraXState → AiraXState
reflect s = elim s.current_step [
  | none ↦ decided "reflection_failed_no_step" (record s { status = "failed" })
  | some id ↦ reflect_step (step_at (some id) s.plan) id s
]
