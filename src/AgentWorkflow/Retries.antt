-- ===== src/AgentWorkflow/Retries.antt =====
-- The retry budget of the workflow, and what is never run again, in the loop of
-- backend/graph/aira_workflow.py.
use aira_agent.Base.{
  Option-cases, ℕ, suc, ◌≤◌, String, Option, none, some, Bool, true, false, ◌≡◌, ◌&&◌, ◌||◌, ◌==◌,
  if◌then◌else◌, leb, is_text, arith, refl, Bool-cases, inl, inr, if_both, if_split, sym, ◌+◌, zero,
  ◌∙◌, ap, if_false, List,
}
use aira_agent.AgentWorkflow.State.{AiraXStep, AiraXState, current, add_log, Output, step_at}
use aira_agent.AgentWorkflow.Decision.{decided, decide, is_git_write, reflect}
use aira_agent.AgentWorkflow.Loop.{
  Agents, logged, dispatch, dispatch_end, ends, complete, stop_write, stop_spent, stop_unknown,
  complete_tool_step, complete_current, fail_current, round, execute_loop,
}
use aira_agent.AgentWorkflow.Stops.{
  IsStopped, reflects, with_execution, spent_stops, git_write_stops,
}
use aira_agent.AgentWorkflow.Budget.{SameBudget, kept-decide, reflect-OneMore}
use aira_agent.AgentWorkflow.Validation.{
  validate, validate_step, refused, passed, latest_successful_execution_output,
}

kept-validate :
    (list_text : List String → String) (s : AiraXState) → SameBudget s (validate list_text s)
unfolding SameBudget validate
kept-validate list_text s = go s.current_step
  where
    found :
        (o : Option Output) (c : AiraXStep)
        → SameBudget s (elim o [
          | none ↦ refused list_text c (add_log "validation_agent" "validation_started" s)
          | some o ↦ passed list_text o c (add_log "validation_agent" "validation_started" s)
        ])
    found none c = unfold refused passed decided add_log in (refl, refl)
    found (some o) c = unfold refused passed decided add_log in (refl, refl)

    at : (c : Option AiraXStep) → SameBudget s (validate_step list_text c s)
    at none = unfold validate_step decided add_log in (refl, refl)
    at (some c) =
        unfold validate_step in
        found
          (latest_successful_execution_output (add_log "validation_agent" "validation_started" s)) c

    go :
        (o : Option ℕ)
        → SameBudget s (elim o [
          | none ↦
              add_log "validation_agent" "validation_failed"
                (decided "validation_failed_no_step" (record s { status = "failed" }))
          | some id ↦ validate_step list_text (step_at (some id) s.plan) s
        ])
    go none = unfold decided add_log in (refl, refl)
    go (some id) = at (step_at (some id) s.plan)

-- An agent that leaves the budget alone.
unfoldable pub KeepsBudget : (AiraXState → AiraXState) → Type 0
KeepsBudget f = (s : AiraXState) → SameBudget s (f s)

module _ (a : Agents) (e : KeepsBudget a.execution) where
  kept-complete_tool_step : (s : AiraXState) → SameBudget s (complete_tool_step s)
  unfolding complete_tool_step SameBudget decided complete_current
  kept-complete_tool_step s = go (current s)
    where
      go :
          (c : Option AiraXStep)
          → SameBudget s (elim c [
            | none ↦ s
            | some c ↦ decided "tool_step_completed" (complete_current "Decision step completed." s)
          ])
      go none = (refl, refl)
      go (some c) = (refl, refl)

  kept-dispatch_end : (s : AiraXState) → SameBudget s (dispatch_end a s).0
  unfolding dispatch_end complete ends add_log stop_write stop_spent stop_unknown fail_current
      SameBudget
  kept-dispatch_end s =
      under "validate_final_result" _ _ (refl, refl)
        (under "stop_safety_block" _ _ (refl, refl)
          (under "stop_approval_required" _ _ (refl, refl)
            (under "stop_non_retryable_failure" _ _ (refl, refl)
              (under "finish" _ _ (refl, refl)
                (under "stop_max_retries" _ _ (refl, refl) (refl, refl))))))
    where
      under :
          (d : String) (x y : AiraXState × Bool)
          → SameBudget s x.0
          → SameBudget s y.0
          → SameBudget s (if is_text s.decision d then x else y).0
      under d x y = if_both (λ t. SameBudget s t.0) (is_text s.decision d) x y

  -- A reflection takes one from the budget, and nothing else does.
  Spends : AiraXState → AiraXState × Bool → Type 0
  Spends s t =
      (t.0.retry_count ≤ (if reflects s then 1 else 0) + s.retry_count)
      × (t.0.max_retries ≡ s.max_retries)

  nothing_spent : (s : AiraXState) (t : AiraXState × Bool) → SameBudget s t.0 → Spends s t
  unfolding Spends SameBudget
  nothing_spent s t h = ground (arith, h)

  one_spent : (s : AiraXState) → reflects s ≡ true → Spends s (reflect s, true)
  unfolding Spends
  one_spent s h = rw h (ground (arith, reflect-OneMore s))

  dispatch-Spends : (s : AiraXState) → Spends s (dispatch a s)
  unfolding dispatch SameBudget complete_current KeepsBudget
  dispatch-Spends s =
      when "run_planner" _ _ (λ h. nothing_spent s _ (refl, refl))
        (when "run_execution" _ _ (λ h. nothing_spent s _ (e s))
          (when "execution_failed" _ _ (λ h. one_spent s (unfold reflects in ground (arith, h)))
            (when "reflect_and_retry" _ _ (λ h. one_spent s (unfold reflects in ground (arith, h)))
              (when "retry_prepared" _ _ (λ h. nothing_spent s _ (refl, refl))
                (when "run_validation" _ _ (λ h. nothing_spent s _ (kept-validate a.list_text s))
                  (when "run_tool" _ _ (λ h. nothing_spent s _ (kept-complete_tool_step s))
                    (when "continue_workflow" _ _ (λ h. nothing_spent s _ (refl, refl))
                      (nothing_spent s _ (kept-dispatch_end s)))))))))
    where
      when :
          (d : String) (x y : AiraXState × Bool)
          → (is_text s.decision d ≡ true → Spends s x)
          → Spends s y
          → Spends s (if is_text s.decision d then x else y)
      when d x y p q = if_split (Spends s) (is_text s.decision d) x y p (λ h. q)

  round-bounded :
      (s : AiraXState)
      → s.retry_count ≤ s.max_retries
      → ((round a s).0.retry_count ≤ (round a s).0.max_retries)
        × ((round a s).0.max_retries ≡ s.max_retries)
  unfolding round SameBudget IsStopped Spends reflects logged add_log
  round-bounded s within =
      let (count, cap) = dispatch-Spends (logged (decide s)) in
      elim (Bool-cases (leb s.max_retries s.retry_count)) [
        | inl h ↦ ground (arith, within, kept-decide s, count, cap, (spent_stops s h).1)
        | inr h ↦ ground (arith, h, kept-decide s, count, cap)
      ]

  -- However many rounds the loop runs, and whatever the tools do that the execution agent calls, as long
  -- as this agent leaves the retry counters alone: a workflow that starts within `max_retries` stays
  -- within it, and the limit is not changed.
  pub retries_bounded :
      (n : ℕ) (s : AiraXState)
      → s.retry_count ≤ s.max_retries
      → ((execute_loop a n s).0.retry_count ≤ s.max_retries)
        × ((execute_loop a n s).0.max_retries ≡ s.max_retries)
  unfolding execute_loop
  retries_bounded zero s within = (within, refl)
  retries_bounded (suc n) s within =
      let (one, cap) = round-bounded s within in
      let (more, same) = retries_bounded n (round a s).0 one in
      if_both {A = AiraXState × Bool}
        (λ t. (t.0.retry_count ≤ s.max_retries) × (t.0.max_retries ≡ s.max_retries)) (round a s).1
        (execute_loop a n (round a s).0) ((round a s).0, false)
        (omega (arith, more, cap), same ∙ cap) (omega (arith, one, cap), cap)

-- The current step is a git stage, commit or push that failed.
abbrev pub failed_write : Option AiraXStep → Bool
failed_write none = false
failed_write (some c) = c.status == "failed" && is_git_write c

-- The budget is spent, or a git write has failed.
abbrev pub must_stop : AiraXState → Bool
must_stop s = leb s.max_retries s.retry_count || failed_write (current s)

stopped : (s : AiraXState) → must_stop s ≡ true → IsStopped (decide s)
stopped s h = elim (Bool-cases (leb s.max_retries s.retry_count)) [
  | inl e ↦ spent_stops s e
  | inr e ↦ elim (Option-cases (current s)) [
    | inl n ↦ absurd (cc (rw (e, n) at h))
    | inr (c, f) ↦
        (let w : (c.status == "failed" && is_git_write c) ≡ true = rw (e, f) at h in
          git_write_stops s c f (ground (arith, w)) (ground (arith, w)))
  ]
]

one_round :
    (a : Agents) (n : ℕ) (s : AiraXState)
    → (round a s).1 ≡ false
    → execute_loop a (suc n) s ≡ ((round a s).0, false)
unfolding execute_loop
one_round a n s h = if_false (execute_loop a n (round a s).0) ((round a s).0, false) h

-- Where the retry budget is spent, or the current step is a git stage, commit or push that failed, the
-- loop ends in this round: it reflects no more, and it does not run the execution agent, so that its
-- result is the same with another in its place.
pub must_stop-stops :
    (a : Agents) (f : AiraXState → AiraXState) (n : ℕ) (s : AiraXState)
    → must_stop s ≡ true
    → ((execute_loop a (suc n) s).1 ≡ false)
      × ((execute_loop a (suc n) s).0.retry_count ≡ s.retry_count)
      × (execute_loop (with_execution a f) (suc n) s ≡ execute_loop a (suc n) s)
unfolding IsStopped round SameBudget
must_stop-stops a f n s h =
    let (over, spent, same) = (stopped s h).0 a f in
    let last = one_round a n s over in
    let last' = one_round (with_execution a f) n s (ap (λ t. t.1) same ∙ over) in
    (
      ap (λ t. t.1) last,
      ap (λ t. t.0.retry_count) last ∙ spent ∙ (kept-decide s).0,
      last' ∙ ap (λ t. (t.0, false)) same ∙ sym last,
    )
