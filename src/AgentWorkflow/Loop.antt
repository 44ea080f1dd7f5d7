-- ===== src/AgentWorkflow/Loop.antt =====
-- The loop of backend/graph/aira_workflow.py. The execution agent, which calls the tools, the two texts
-- built from the execution outputs and Python's `str` of a list are the functions of `Agents`; the
-- memory agent is its log entry. Times are left out.
use Prim.Native.String.{◌++◌ as append}
use aira_agent.Base.{
  ℕ, zero, suc, String, Option, none, some, Bool, true, false, if◌then◌else◌, is_text, truthy,
  or_text, List,
}
use aira_agent.AgentWorkflow.State.{AiraXStep, AiraXState, Memory, current, add_log}
use aira_agent.AgentWorkflow.Decision.{decided, decide, reflect, write_current}
use aira_agent.AgentWorkflow.Validation.{validate}

pub record Agents : Type 0 where
  pub execution : AiraXState → AiraXState
  pub list_text : List String → String
  pub build_final_answer : AiraXState → String
  pub build_failure_answer : AiraXState → String

-- The entry that follows each decision.
unfoldable pub logged : AiraXState → AiraXState
logged s = add_log "decision_agent" "decision_made" s

-- description or a fixed text
abbrev pub complete_step : String → AiraXStep → AiraXStep
complete_step text c = record c {
  status = "completed";
  result = some (or_text (some c.description) text);
}

-- The current step, where there is one, is completed.
unfoldable pub complete_current : String → AiraXState → AiraXState
complete_current text s = record s { plan = write_current (complete_step text) s }

-- error or (memory's last_execution_error) or a fixed text
abbrev pub fail_step : String → Memory → AiraXStep → AiraXStep
fail_step text m c = record c {
  status = "failed";
  error = if truthy c.error then c.error else some (or_text m.last_execution_error text);
}

unfoldable pub fail_current : String → AiraXState → AiraXState
fail_current text s = record s {
  status = "failed";
  plan = write_current (fail_step text s.memory) s;
}

unfoldable pub complete_tool_step : AiraXState → AiraXState
complete_tool_step s = elim (current s) [
  | none ↦ s
  | some c ↦ decided "tool_step_completed" (complete_current "Decision step completed." s)
]

-- The log of an end and the run of the memory agent; false is `break`.
unfoldable pub ends : String → AiraXState → AiraXState × Bool
ends event s =
    (add_log "memory_agent" "memory_summary_created" (add_log "aira_x_workflow" event s), false)

unfoldable pub complete : Agents → AiraXState → AiraXState × Bool
complete a s =
    let done : AiraXState = record s { status = "completed" } in
    ends "workflow_completed" (record done { final_answer = some (a.build_final_answer done) })

unfoldable pub stop_write : AiraXState → AiraXState × Bool
stop_write s =
    ends "workflow_stopped_non_retryable_failure"
      (record (fail_current "Non-retryable workflow step failed." s) {
        final_answer =
            if truthy s.final_answer
            then s.final_answer
            else some (
                or_text s.memory.last_execution_error
                  "Workflow stopped because a non-retryable action failed.");
      })

unfoldable pub stop_spent : Agents → AiraXState → AiraXState × Bool
stop_spent a s =
    let t = fail_current "Workflow failed after maximum retries." s in
    ends "workflow_failed_max_retries" (record t { final_answer = some (a.build_failure_answer t) })

-- f"{decision}"
decision_text : Option String → String
decision_text none = "None"
decision_text (some d) = d

unfoldable pub stop_unknown : AiraXState → AiraXState × Bool
unfolding decision_text
stop_unknown s = ends "workflow_failed_unknown_decision" (record s {
  status = "failed";
  final_answer = some (append "Unknown decision: " (decision_text s.decision));
})

-- The decisions that end the loop.
unfoldable pub dispatch_end : Agents → AiraXState → AiraXState × Bool
dispatch_end a s =
    if is_text s.decision "validate_final_result"
    then complete a s
    else if is_text s.decision "stop_safety_block"
    then ends "workflow_blocked_by_safety" (record s { status = "failed" })
    else if is_text s.decision "stop_approval_required"
    then ends "workflow_waiting_for_approval" (record s { status = "requires_approval" })
    else if is_text s.decision "stop_non_retryable_failure"
    then stop_write s
    else if is_text s.decision "finish"
    then complete a s
    else if is_text s.decision "stop_max_retries"
    then stop_spent a s
    else stop_unknown s

-- What the loop does on a decision, and whether it goes on.
unfoldable pub dispatch : Agents → AiraXState → AiraXState × Bool
dispatch a s =
    if is_text s.decision "run_planner"
    then (complete_current "Goal understood and initial plan created." s, true)
    else if is_text s.decision "run_execution"
    then (a.execution s, true)
    else if is_text s.decision "execution_failed"
    then (reflect s, true)
    else if is_text s.decision "reflect_and_retry"
    then (reflect s, true)
    else if is_text s.decision "retry_prepared"
    then (record s { status = "retrying" }, true)
    else if is_text s.decision "run_validation"
    then (validate a.list_text s, true)
    else if is_text s.decision "run_tool"
    then (complete_tool_step s, true)
    else if is_text s.decision "continue_workflow"
    then (s, true)
    else dispatch_end a s

unfoldable pub round : Agents → AiraXState → AiraXState × Bool
round a s = dispatch a (logged (decide s))

-- The loop for at most so many rounds, and whether it is still going on after them.
unfoldable pub execute_loop : Agents → ℕ → AiraXState → AiraXState × Bool
execute_loop a zero s = (s, true)
execute_loop a (suc n) s =
    let (t, more) = round a s in let rest = execute_loop a n t in if more then rest else (t, false)
