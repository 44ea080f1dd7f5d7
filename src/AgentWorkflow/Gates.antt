-- ===== src/AgentWorkflow/Gates.antt =====
-- `SafetyAgent.run` of backend/agents/safety/safety_agent.py and `ApprovalAgent.run` of
-- backend/agents/approval/approval_agent.py. `lower` is Python's `str.lower`; the patterns are in
-- lower case.
use Prim.Native.String.{◌++◌ as append}
use aira_agent.Base.{
  String, some, List, [], ◌∷◌, Bool, true, false, not, ◌≡◌, ◌&&◌, ◌||◌, if◌then◌else◌, any, is_text,
  refl, Bool-cases, inl, inr,
}
use aira_agent.Base.Text.{contains_text}
use aira_agent.JobPolicy.{contains}
use aira_agent.AgentWorkflow.State.{AiraXState, Memory, add_log}
use aira_agent.AgentWorkflow.Decision.{decided}

abbrev pub blocked_patterns : List String
blocked_patterns =
    "rm -rf" ∷ "del /s" ∷ "format" ∷ "shutdown" ∷ "restart" ∷ "taskkill" ∷ "reg delete"
    ∷ "remove-item -recurse" ∷ []

abbrev pub approval_patterns : List String
approval_patterns =
    "pip install" ∷ "pip uninstall" ∷ "npm install" ∷ "npm uninstall" ∷ "git add" ∷ "git commit"
    ∷ "git push" ∷ "git reset" ∷ "docker build" ∷ "docker run" ∷ "docker compose" ∷ "deploy"
    ∷ "vercel" ∷ "render" ∷ "railway" ∷ []

unfoldable pub blocked_by : String → String → AiraXState → AiraXState
blocked_by prefix action s = add_log "safety_agent" "safety_blocked_action" (
    decided "blocked_by_safety_agent"
      (record s { status = "failed"; final_answer = some (append prefix action) }))

-- the loop over the patterns, and what follows it
unfoldable pub safety_patterns : List String → String → String → AiraXState → AiraXState
safety_patterns [] action lowered s =
    add_log "safety_agent" "safety_approved" (decided "safety_approved" s)
safety_patterns (p ∷ ps) action lowered s =
    let rest = safety_patterns ps action lowered s in
    if contains_text p lowered then blocked_by "Unsafe action blocked: " action s else rest

unfoldable pub safety_run : (String → String) → AiraXState → AiraXState
safety_run lower s =
    let action = s.memory.pending_action in
    let started = add_log "safety_agent" "safety_check_started" s in
    if is_text s.memory.current_tool_policy.risk_level "dangerous"
    then blocked_by "Unsafe action blocked by policy: " action started
    else safety_patterns blocked_patterns action (lower action) started

unfoldable pub ask_approval : String → String → AiraXState → AiraXState
ask_approval prefix action s = add_log "approval_agent" "approval_required" (
    decided "approval_required"
      (record s { status = "requires_approval"; final_answer = some (append prefix action) }))

unfoldable pub approval_loop : List String → String → String → AiraXState → AiraXState
approval_loop [] action lowered s =
    add_log "approval_agent" "approval_not_required" (decided "approval_not_required" s)
approval_loop (p ∷ ps) action lowered s =
    let rest = approval_loop ps action lowered s in
    if contains_text p lowered
    then ask_approval "This action requires user approval before execution: " action s
    else rest

unfoldable pub approval_run : (String → String) → AiraXState → AiraXState
approval_run lower s =
    let action = s.memory.pending_action in
    let started = add_log "approval_agent" "approval_check_started" s in
    if contains action s.memory.approved_actions
    then add_log "approval_agent" "approval_already_granted"
        (decided "approval_not_required" started)
    else if s.memory.current_tool_policy.requires_approval
    then ask_approval "This action requires user approval by tool policy before execution: " action
        started
    else approval_loop approval_patterns action (lower action) started

-- Why the two agents stop an action, said without their loops.
abbrev pub is_unsafe : (String → String) → Memory → Bool
is_unsafe lower m =
    is_text m.current_tool_policy.risk_level "dangerous"
    || any (λ p. contains_text p (lower m.pending_action)) blocked_patterns

abbrev pub needs_approval : (String → String) → Memory → Bool
needs_approval lower m =
    not (contains m.pending_action m.approved_actions)
    && (m.current_tool_policy.requires_approval
        || any (λ p. contains_text p (lower m.pending_action)) approval_patterns)

safety_patterns-decision :
    (ps : List String) (action lowered : String) (s : AiraXState)
    → (safety_patterns ps action lowered s).decision
      ≡ some (
          if any (λ p. contains_text p lowered) ps
          then "blocked_by_safety_agent"
          else "safety_approved")
unfolding safety_patterns blocked_by add_log decided any
safety_patterns-decision [] action lowered s = refl
safety_patterns-decision (p ∷ ps) action lowered s = elim (Bool-cases (contains_text p lowered)) [
  | inl e ↦ rw e refl
  | inr e ↦ rw e (safety_patterns-decision ps action lowered s)
]

approval_loop-decision :
    (ps : List String) (action lowered : String) (s : AiraXState)
    → (approval_loop ps action lowered s).decision
      ≡ some (
          if any (λ p. contains_text p lowered) ps
          then "approval_required"
          else "approval_not_required")
unfolding approval_loop ask_approval add_log decided any
approval_loop-decision [] action lowered s = refl
approval_loop-decision (p ∷ ps) action lowered s = elim (Bool-cases (contains_text p lowered)) [
  | inl e ↦ rw e refl
  | inr e ↦ rw e (approval_loop-decision ps action lowered s)
]

safety_run-decision :
    (lower : String → String) (s : AiraXState)
    → (safety_run lower s).decision
      ≡ some (if is_unsafe lower s.memory then "blocked_by_safety_agent" else "safety_approved")
unfolding safety_run
safety_run-decision lower s =
    elim (Bool-cases (is_text s.memory.current_tool_policy.risk_level "dangerous")) [
      | inl e ↦ rw e (unfold blocked_by add_log decided in refl)
      | inr e ↦ rw e (
          safety_patterns-decision blocked_patterns s.memory.pending_action
            (lower s.memory.pending_action) (add_log "safety_agent" "safety_check_started" s))
    ]

-- the policy's demand, then the loop
policy_or_loop :
    (demanded : Bool) (prefix action lowered : String) (s : AiraXState)
    → (if demanded
        then ask_approval prefix action s
        else approval_loop approval_patterns action lowered s).decision
      ≡ some (
          if demanded || any (λ p. contains_text p lowered) approval_patterns
          then "approval_required"
          else "approval_not_required")
unfolding ask_approval add_log decided
policy_or_loop true prefix action lowered s = refl
policy_or_loop false prefix action lowered s =
    approval_loop-decision approval_patterns action lowered s

approval_run-decision :
    (lower : String → String) (s : AiraXState)
    → (approval_run lower s).decision
      ≡ some
          (if needs_approval lower s.memory then "approval_required" else "approval_not_required")
unfolding approval_run
approval_run-decision lower s =
    elim (Bool-cases (contains s.memory.pending_action s.memory.approved_actions)) [
      | inl e ↦ rw e (unfold add_log decided in refl)
      | inr e ↦ rw e (
          policy_or_loop s.memory.current_tool_policy.requires_approval
            "This action requires user approval by tool policy before execution: "
            s.memory.pending_action (lower s.memory.pending_action)
            (add_log "approval_agent" "approval_check_started" s))
    ]

-- The safety agent blocks an action exactly when its tool's policy calls it dangerous or the action
-- contains a blocked pattern, and approves it otherwise; the approval agent asks for approval exactly
-- when the action has not been approved and its tool's policy, or a pattern that it contains, demands
-- it.
pub gates_exact :
    (lower : String → String) (s : AiraXState)
    → ((safety_run lower s).decision
        ≡ some (if is_unsafe lower s.memory then "blocked_by_safety_agent" else "safety_approved"))
      × ((approval_run lower s).decision
          ≡ some (
              if needs_approval lower s.memory
              then "approval_required"
              else "approval_not_required"))
gates_exact lower s = (safety_run-decision lower s, approval_run-decision lower s)
