-- ===== src/AgentWorkflow/Budget.antt =====
-- What the decision and reflection agents of backend/agents do to the retry counters.
use aira_agent.Base.{
  ℕ, suc, ◌≤◌, String, Option, none, some, ◌≡◌, ◌||◌, ◌==◌, is_text, arith, refl, if_both,
}
use aira_agent.AgentWorkflow.State.{AiraXStep, AiraXState, step_at, current, add_log}
use aira_agent.AgentWorkflow.Decision.{
  decided, decide, decide_current, decide_retries, decide_progress, decide_step, decide_pending,
  advance, advance_validated, next_step, reflect, reflect_step,
}

-- What a decision leaves alone.
unfoldable pub SameBudget : AiraXState → AiraXState → Type 0
SameBudget s t = (t.retry_count ≡ s.retry_count) × (t.max_retries ≡ s.max_retries)

same_budget :
    (s t : AiraXState) (d : String)
    → t.retry_count ≡ s.retry_count
    → t.max_retries ≡ s.max_retries
    → SameBudget s (decided d t)
unfolding SameBudget decided
same_budget s t d a b = (a, b)

same_self : (s : AiraXState) → SameBudget s s
unfolding SameBudget
same_self s = (refl, refl)

module _ (s : AiraXState) where
  kept-advance : (n : Option AiraXStep) → SameBudget s (advance n s)
  unfolding advance
  kept-advance none = same_budget s s _ refl refl
  kept-advance (some n) = same_budget s _ _ refl refl

  kept-advance_validated : (n : Option AiraXStep) → SameBudget s (advance_validated n s)
  unfolding advance_validated
  kept-advance_validated none = same_budget s s _ refl refl
  kept-advance_validated (some n) = same_budget s _ _ refl refl

  here : (d : String) → SameBudget s (decided d s)
  here d = same_budget s s d refl refl

  kept-decide_pending : (c : AiraXStep) → SameBudget s (decide_pending c s)
  unfolding decide_pending
  kept-decide_pending c =
      if_both (SameBudget s) (is_text c.assigned_agent "planner_agent") _ _ (here "run_planner") (
        if_both (SameBudget s) (is_text c.assigned_agent "execution_agent") _ _
          (here "run_execution")
          (if_both (SameBudget s) (is_text c.assigned_agent "validation_agent") _ _
            (here "run_validation")
            (if_both (SameBudget s) (is_text c.assigned_agent "decision_agent") _ _
              (here "run_tool") (same_self s))))

  kept-decide_step : (c : Option AiraXStep) → SameBudget s (decide_step c s)
  unfolding decide_step
  kept-decide_step none = here _
  kept-decide_step (some c) =
      if_both (SameBudget s) (c.status == "pending") _ _ (kept-decide_pending c) (
        if_both (SameBudget s) (c.status == "completed") _ _
          (if_both (SameBudget s) (is_text c.assigned_agent "execution_agent") _ _
            (here "run_validation") (kept-advance (next_step s)))
          (if_both (SameBudget s) (c.status == "failed") _ _ (here "reflect_and_retry")
            (same_self s)))

  kept-decide_retries : SameBudget s (decide_retries s)
  unfolding decide_retries decide_progress
  kept-decide_retries =
      if_both (SameBudget s) _ _ _ (same_budget s _ "stop_max_retries" refl refl) (
        if_both (SameBudget s) (is_text s.decision "retry_prepared") _ _ (here "run_execution") (
          if_both (SameBudget s)
            (is_text s.decision "validation_success" || s.status == "validated") _ _
            (kept-advance_validated (next_step s)) (kept-decide_step (current s))))

  pub kept-decide : SameBudget s (decide s)
  unfolding decide decide_current
  kept-decide = if_both (SameBudget s) _ _ _ (here _) (go (current s))
    where
      go : (c : Option AiraXStep) → SameBudget s (decide_current c s)
      go none = kept-decide_retries
      go (some c) = if_both (SameBudget s) _ _ _ (same_budget s _ "stop_safety_block" refl refl) (
          if_both (SameBudget s) _ _ _ (same_budget s _ "stop_non_retryable_failure" refl refl)
            kept-decide_retries)

abbrev pub OneMore : AiraXState → AiraXState → Type 0
OneMore s t = (t.retry_count ≤ suc s.retry_count) × (t.max_retries ≡ s.max_retries)

pub reflect-OneMore : (s : AiraXState) → OneMore s (reflect s)
unfolding reflect decided
reflect-OneMore s = go s.current_step
  where
    at : (c : Option AiraXStep) (id : ℕ) → OneMore s (reflect_step c id s)
    at none id = unfold reflect_step decided in (omega arith, refl)
    at (some c) id = unfold reflect_step decided add_log in (omega arith, refl)

    go :
        (o : Option ℕ)
        → OneMore s (elim o [
          | none ↦ decided "reflection_failed_no_step" (record s { status = "failed" })
          | some id ↦ reflect_step (step_at (some id) s.plan) id s
        ])
    go none = (omega arith, refl)
    go (some id) = at (step_at (some id) s.plan) id
