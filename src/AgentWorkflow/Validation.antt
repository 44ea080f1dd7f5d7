-- ===== src/AgentWorkflow/Validation.antt =====
-- `ValidationAgent.run` of backend/agents/validation/validation_agent.py. `list_text` is
-- Python's `str` of a list of texts.
use Prim.Native.String.{◌++◌ as append}
use aira_agent.Base.{
  String, Option, none, some, List, [], ◌∷◌, ◌++◌, Bool, true, false, not, ◌&&◌, ◌==◌,
  if◌then◌else◌, is_text, truthy, or_text,
}
use aira_agent.Base.Text.{strip}
use aira_agent.AgentWorkflow.State.{
  AiraXStep, AiraXState, Value, text, texts, Output, ValidationNote, step_at, write_step, add_log,
}
use aira_agent.AgentWorkflow.Decision.{decided}

abbrev pub is_value : Option Value → Bool
is_value none = false
is_value (some (text t)) = not (t == "")
is_value (some (texts [])) = false
is_value (some (texts (t ∷ ts))) = true

-- a or b
abbrev pub or_value : Option Value → Option Value → Option Value
or_value a b = if is_value a then a else b

-- The first of the reversed list.
unfoldable pub last_match : (Output → Bool) → List Output → Option Output
last_match p [] = none
last_match p (o ∷ os) = elim (last_match p os) [
  | none ↦ if p o then some o else none
  | some q ↦ some q
]

unfoldable pub latest_successful_execution_output : AiraXState → Option Output
latest_successful_execution_output s =
    last_match (λ o. is_text o.agent "execution_agent" && o.success) s.execution_outputs

abbrev pub error_value : Output → Option Value
error_value o = or_value o.stderr (or_value o.error o.output)

-- "\n".join(…)
unfoldable pub join_lines : List String → String
join_lines [] = ""
join_lines (t ∷ []) = t
join_lines (t ∷ u ∷ us) = append t (append "\n" (join_lines (u ∷ us)))

module _ (list_text : List String → String) where
  -- str(value)
  abbrev pub str : Option Value → String
  str none = "None"
  str (some (text t)) = t
  str (some (texts ts)) = list_text ts

  unfoldable pub latest_execution_error : AiraXState → Option String
  latest_execution_error s =
      elim (last_match (λ o. not o.success && is_value (error_value o)) s.execution_outputs) [
        | none ↦ none
        | some o ↦ some (strip (str (error_value o)))
      ]

  abbrev pub tool_text : Output → String
  tool_text o = append (or_text o.tool_used "tool") (append ":" (or_text o.tool_action "action"))

  -- The texts of a list on lines of their own, and any other value as it is.
  abbrev pub lines_of : Option Value → String
  lines_of none = ""
  lines_of (some (text t)) = t
  lines_of (some (texts ts)) = join_lines ts

  unfoldable pub extract_user_visible_result : Output → String
  extract_user_visible_result o =
      let raw = or_value o.output (or_value o.stdout o.stderr) in
      let shown = strip (if is_value raw then lines_of raw else "") in
      if shown == "" then append (tool_text o) " completed successfully." else shown

  abbrev pub is_meaningful : Option Value → Bool
  is_meaningful none = false
  is_meaningful (some (text t)) = not (strip t == "")
  is_meaningful (some (texts [])) = false
  is_meaningful (some (texts (t ∷ ts))) = true

  unfoldable pub build_validation_result : Output → String
  build_validation_result o = append "Validation passed. " (
      append (tool_text o) (
        if is_meaningful (or_value o.output o.stdout)
        then " completed successfully and produced usable output."
        else " completed successfully without printed output."))

  abbrev pub passed_step : Output → AiraXStep → AiraXStep
  passed_step o c = record c {
    status = "completed";
    result = if truthy c.result then c.result else some (extract_user_visible_result o);
  }

  abbrev pub note_of : Output → AiraXStep → ValidationNote
  note_of o c = record {
    step_id = c.id;
    step_title = c.title;
    result = build_validation_result o;
    tool_name = o.tool_used;
    tool_action = o.tool_action;
  }

  unfoldable pub passed : Output → AiraXStep → AiraXState → AiraXState
  passed o c s = add_log "validation_agent" "validation_success" (
      decided "validation_success" (record s {
        plan = write_step c.id (passed_step o) s.plan;
        memory = record s.memory {
          latest_validation_result = some (build_validation_result o);
          validation_results = s.memory.validation_results ++ note_of o c ∷ [];
        };
        status = "validated";
      }))

  abbrev pub refused_step : Option String → AiraXStep → AiraXStep
  refused_step e c = record c {
    status = "failed";
    error = some (or_text e "No successful execution output found to validate.");
  }

  unfoldable pub refused : AiraXStep → AiraXState → AiraXState
  refused c s = add_log "validation_agent" "validation_failed" (
      decided "validation_failed" (record s {
        plan = write_step c.id (refused_step (latest_execution_error s)) s.plan;
        status = "failed";
      }))

  unfoldable pub validate_step : Option AiraXStep → AiraXState → AiraXState
  validate_step none s =
      add_log "validation_agent" "validation_failed"
        (decided "validation_failed_step_missing" (record s { status = "failed" }))
  validate_step (some c) s =
      let started = add_log "validation_agent" "validation_started" s in
      elim (latest_successful_execution_output started) [
        | none ↦ refused c started
        | some o ↦ passed o c started
      ]

  unfoldable pub validate : AiraXState → AiraXState
  validate s = elim s.current_step [
    | none ↦
        add_log "validation_agent" "validation_failed"
          (decided "validation_failed_no_step" (record s { status = "failed" }))
    | some id ↦ validate_step (step_at (some id) s.plan) s
  ]
